-- ===== src/HttpTemplate.antt =====
-- The HTTP template parser of src/api_manager/http_template.{h,cc}: the class `Parser` with its
-- token window [tb, te), and `HttpTemplate::Parse`. Every method is a function of its own over the
-- parser's state; a method that answers `false` may have changed the state.
--
-- The loops take fuel, one unit for each round, and `out_of_fuel` is a result of its own. The
-- recursion between segments and variables takes a depth: two levels are entered, since a variable
-- inside a variable is refused before its segments are read.
pub mod Window
pub mod Ranges
pub mod Nesting
pub mod Parsed
pub mod Examples
use esp.Base.{
  ℕ, zero, suc, ◌+◌, ◌-◌, Bool, true, false, not, ◌&&◌, ◌||◌, Option, none, some, List, [], ◌∷◌,
  ◌++◌, map, Str, str_eq, length, get_or, is_empty, ltb, leb, ◌==◌, if◌then◌else◌,
}

-- `end_segment`: where the source's int is negative, `from_end n` stands for -n.
pub data Position : Type 0 where
  from_start from_end : ℕ → Position

-- `HttpTemplate::Variable`.
pub record Variable : Type 0 where
  pub start_segment : ℕ
  pub end_segment : Position
  pub field_path : List Str
  pub has_wildcard_path : Bool

pub record Parser : Type 0 where
  pub input : Str
  pub tb : ℕ
  pub te : ℕ
  pub in_variable : Bool
  pub segments : List Str
  pub verb : Str
  pub variables : List Variable

abbrev pub k_single_parameter_key : Str
k_single_parameter_key = b'/' ∷ b'.' ∷ []

abbrev pub k_wild_card_path_part_key : Str
k_wild_card_path_part_key = b'*' ∷ []

abbrev pub k_wild_card_path_key : Str
k_wild_card_path_key = b'*' ∷ b'*' ∷ []

-- What a method returns: `true` with a value, `false`, or no answer within the fuel.
pub data Outcome (A : Type 0) : Type 0 where
  done : A → Parser → Outcome A
  failed : Parser → Outcome A
  out_of_fuel : Outcome A

-- A method in sequence: `if (!m()) return false; ...`.
infixl 5 ◌>>=◌
abbrev pub ◌>>=◌ : {A B : Type 0} → Outcome A → (A → Parser → Outcome B) → Outcome B
done a p >>= k = k a p
failed p >>= k = failed p
out_of_fuel >>= k = out_of_fuel

-- The answer of a method that runs no loop, as an outcome.
abbrev pub answer : {A : Type 0} → A → Bool × Parser → Outcome A
answer a (true, p) = done a p
answer a (false, p) = failed p

-- `if (m()) ... else ...`, where `m` runs no loop.
abbrev pub branch :
    {A : Type 0} → Bool × Parser → (Parser → Outcome A) → (Parser → Outcome A) → Outcome A
branch (true, p) yes_case no_case = yes_case p
branch (false, p) yes_case no_case = no_case p

-- The constructor.
abbrev pub initial : Str → Parser
initial input = record {
  input = input;
  tb = 0;
  te = 0;
  in_variable = false;
  segments = [];
  verb = [];
  variables = [];
}

-- The char -1, as a byte, stands for no current character.
pub current_char : Parser → ℕ
current_char p =
    if ltb p.tb p.te && leb p.te (length p.input) then get_or p.input (p.te - 1) 255 else 255

pub next_char : Parser → Bool × Parser
next_char p = if ltb p.te (length p.input) then (true, record p { te = p.te + 1 }) else (false, p)

pub ensure_current : Parser → Bool × Parser
ensure_current p = if ltb p.tb p.te then (true, p) else next_char p

pub accept : ℕ → Parser → Bool × Parser
accept c p = if current_char p == c then (true, record p { tb = p.tb + 1 }) else (false, p)

pub accept_next : ℕ → Bool × Parser → Bool × Parser
accept_next c (true, p) = accept c p
accept_next c (false, p) = (false, p)

pub consume : ℕ → Parser → Bool × Parser
consume c p = if leb p.te p.tb then accept_next c (next_char p) else accept c p

pub consumed_all_input : Parser → Bool
consumed_all_input p = leb (length p.input) p.tb

-- `CurrentVariable()` is the last one.
pub update_last : (Variable → Variable) → List Variable → List Variable
update_last f [] = []
update_last f (v ∷ []) = f v ∷ []
update_last f (v ∷ w ∷ vs) = v ∷ update_last f (w ∷ vs)

pub new_variable : ℕ → Variable
new_variable n = record {
  start_segment = n;
  end_segment = from_start 0;
  field_path = [];
  has_wildcard_path = false;
}

pub start_variable : Parser → Bool × Parser
start_variable p =
    if not p.in_variable
    then (
      true,
      record p {
        variables = p.variables ++ (new_variable (length p.segments) ∷ []);
        in_variable = true;
      },
    )
    else (false, p)

abbrev pub end_of : Position → ℕ
end_of (from_start n) = n
end_of (from_end n) = 0

pub validate_variable : ℕ → Variable → Bool
validate_variable n v =
    not (is_empty v.field_path)
    && ltb v.start_segment (end_of v.end_segment)
    && leb (end_of v.end_segment) n

-- `validate_variable` of the last variable.
pub validate_last : ℕ → List Variable → Bool
validate_last n [] = false
validate_last n (v ∷ []) = validate_variable n v
validate_last n (v ∷ w ∷ vs) = validate_last n (w ∷ vs)

abbrev pub is_open : Parser → Bool
is_open p = p.in_variable && not (is_empty p.variables)

pub set_end : ℕ → Variable → Variable
set_end n v = record v { end_segment = from_start n }

pub end_variable : Parser → Bool × Parser
end_variable p =
    let vs = update_last (set_end (length p.segments)) p.variables in
    if is_open p
    then (validate_last (length p.segments) vs, record p { variables = vs; in_variable = false })
    else (false, p)

pub add_identifier : Str → Variable → Variable
add_identifier id v = record v { field_path = v.field_path ++ (id ∷ []) }

pub add_field_identifier : Str → Parser → Bool × Parser
add_field_identifier id p =
    if is_open p
    then (true, record p { variables = update_last (add_identifier id) p.variables })
    else (false, p)

pub set_wildcard : Variable → Variable
set_wildcard v = record v { has_wildcard_path = true }

pub mark_variable_has_wild_card_path : Parser → Bool × Parser
mark_variable_has_wild_card_path p =
    if is_open p
    then (true, record p { variables = update_last set_wildcard p.variables })
    else (false, p)

abbrev pub push_segment : Str → Parser → Parser
push_segment s p = record p { segments = p.segments ++ (s ∷ []) }

pub ends_literal : ℕ → Bool
ends_literal c = c == b'/' || c == b':' || c == b'}'

pub ends_identifier : ℕ → Bool
ends_identifier c = c == b'.' || c == b'}' || c == b'='

-- `return result;`
abbrev pub conclude : Bool → Str → Parser → Outcome Str
conclude true lit p = done lit p
conclude false lit p = failed p

-- The loop of `ParseLiteral`.
pub literal_loop : ℕ → Str → Bool → Parser → Outcome Str
literal_loop zero lit result p = out_of_fuel
literal_loop (suc fuel) lit result p =
    let c = current_char p in
    let q = next_char (consume c p).1 in
    let more = literal_loop fuel (lit ++ (c ∷ [])) true q.1 in
    if ends_literal c
    then conclude result lit p
    else if q.0
    then more
    else done (lit ++ (c ∷ [])) q.1

pub parse_literal : ℕ → Str → Parser → Outcome Str
parse_literal fuel lit p = branch (ensure_current p) (literal_loop fuel lit false) failed

-- `return result && AddFieldIdentifier(idf)`
abbrev pub conclude_identifier : Bool → Str → Parser → Outcome (Unit {0})
conclude_identifier true idf p = answer tt (add_field_identifier idf p)
conclude_identifier false idf p = failed p

-- The loop of `ParseIdentifier`.
pub identifier_loop : ℕ → Str → Bool → Parser → Outcome (Unit {0})
identifier_loop zero idf result p = out_of_fuel
identifier_loop (suc fuel) idf result p =
    let q = next_char p in
    let c = current_char q.1 in
    let more = identifier_loop fuel (idf ++ (c ∷ [])) true (consume c q.1).1 in
    if not q.0 || ends_identifier c then conclude_identifier result idf q.1 else more

abbrev pub parse_identifier : ℕ → Parser → Outcome (Unit {0})
parse_identifier fuel p = identifier_loop fuel [] false p

-- The loop of `ParseFieldPath`, which runs `identifier` after each dot.
pub field_path_loop : ℕ → (Parser → Outcome (Unit {0})) → Parser → Outcome (Unit {0})
field_path_loop zero identifier p = out_of_fuel
field_path_loop (suc fuel) identifier p =
    branch (consume b'.' p) (λ q. identifier q >>= λ u r. field_path_loop fuel identifier r)
      (done tt)

pub parse_field_path : ℕ → Parser → Outcome (Unit {0})
parse_field_path fuel p =
    parse_identifier fuel p >>= λ u q. field_path_loop fuel (parse_identifier fuel) q

pub parse_literal_segment : ℕ → Parser → Outcome (Unit {0})
parse_literal_segment fuel p = parse_literal fuel [] p >>= λ ls q. done tt (push_segment ls q)

-- After the first `*`.
pub parse_stars : Parser → Outcome (Unit {0})
parse_stars p =
    branch (consume b'*' p)
      (λ q.
        let r = push_segment k_wild_card_path_key q in
        if r.in_variable then answer tt (mark_variable_has_wild_card_path r) else done tt r)
      (λ q. done tt (push_segment k_wild_card_path_part_key q))

-- `ParseSegment`, with `ParseVariable` as an argument.
pub parse_segment : ℕ → (Parser → Outcome (Unit {0})) → Parser → Outcome (Unit {0})
parse_segment fuel variable p =
    branch (ensure_current p)
      (λ q.
        if current_char q == b'*'
        then parse_stars (consume b'*' q).1
        else if current_char q == b'{'
        then variable q
        else parse_literal_segment fuel q)
      failed

-- The loop of `ParseSegments`.
pub segments_loop : ℕ → (Parser → Outcome (Unit {0})) → Parser → Outcome (Unit {0})
segments_loop zero segment p = out_of_fuel
segments_loop (suc fuel) segment p =
    branch (consume b'/' p) (λ q. segment q >>= λ u r. segments_loop fuel segment r) (done tt)

-- `ParseVariable`, with `ParseSegments` as an argument.
pub parse_variable : ℕ → (Parser → Outcome (Unit {0})) → Parser → Outcome (Unit {0})
parse_variable fuel inner p = answer tt (consume b'{' p) >>= λ u p1.
    answer tt (start_variable p1) >>= λ u p2. parse_field_path fuel p2 >>= λ u p3.
    branch (consume b'=' p3) inner (λ q. done tt (push_segment k_wild_card_path_part_key q))
    >>= λ u p4. answer tt (end_variable p4) >>= λ u p5. answer tt (consume b'}' p5)

-- `ParseSegments`; `depth` bounds the nesting.
pub parse_segments : ℕ → ℕ → Parser → Outcome (Unit {0})
parse_segments zero fuel p = out_of_fuel
parse_segments (suc depth) fuel p =
    let segment = parse_segment fuel (parse_variable fuel (parse_segments depth fuel)) in
    segment p >>= λ u q. segments_loop fuel segment q

pub parse_verb : ℕ → Parser → Outcome (Unit {0})
parse_verb fuel p = answer tt (consume b':' p) >>= λ u q.
    parse_literal fuel q.verb q >>= λ lit r. done tt (record r { verb = lit })

pub parse_template : ℕ → Parser → Outcome (Unit {0})
parse_template fuel p = answer tt (consume b'/' p) >>= λ u p1. parse_segments 2 fuel p1 >>= λ u p2.
    branch (ensure_current p2)
      (λ q. if current_char q == b':' then parse_verb fuel q else done tt q) (done tt)

-- `end - segments_.size() - 1`, and one less with a verb, counted from the end.
pub post_process_variable : ℕ → Bool → Variable → Variable
post_process_variable n has_verb v =
    if v.has_wildcard_path
    then record v {
      end_segment =
          from_end
            (if has_verb then n + 2 - end_of v.end_segment else n + 1 - end_of v.end_segment);
    }
    else v

pub post_process_variables : Parser → Parser
post_process_variables p = record p {
  variables = map (post_process_variable (length p.segments) (not (is_empty p.verb))) p.variables;
}

-- `Parser::Parse`.
pub parse : ℕ → Parser → Outcome (Unit {0})
parse fuel p = parse_template fuel p >>= λ u q.
    if consumed_all_input q then done tt (post_process_variables q) else failed q

unfoldable pub is_special : Str → Bool
is_special s =
    str_eq s k_single_parameter_key
    || str_eq s k_wild_card_path_part_key
    || str_eq s k_wild_card_path_key

-- The loop of `ValidateParts`.
unfoldable pub validate_parts : Bool → List Str → Bool
unfolding is_special
validate_parts found [] = true
validate_parts false (s ∷ ss) = validate_parts (str_eq s k_wild_card_path_key) ss
validate_parts true (s ∷ ss) = if is_special s then false else validate_parts true ss

pub record HttpTemplate : Type 0 where
  pub segments : List Str
  pub verb : Str
  pub variables : List Variable

-- `none` is the null pointer that `HttpTemplate::Parse` returns.
pub template_of : Outcome (Unit {0}) → Option HttpTemplate
template_of (done u p) =
    if validate_parts false p.segments
    then some (record { segments = p.segments; verb = p.verb; variables = p.variables })
    else none
template_of (failed p) = none
template_of out_of_fuel = none

-- Enough for every loop: no round leaves the input where it was.
abbrev pub fuel_for : Str → ℕ
fuel_for input = suc (length input)

unfoldable pub parse_http_template : Str → Option HttpTemplate
unfolding current_char next_char ensure_current accept accept_next consume consumed_all_input
    update_last new_variable start_variable validate_variable validate_last set_end end_variable
    add_identifier add_field_identifier set_wildcard mark_variable_has_wild_card_path ends_literal
    ends_identifier literal_loop parse_literal identifier_loop field_path_loop parse_field_path
    parse_literal_segment parse_stars parse_segment segments_loop parse_variable parse_segments
    parse_verb parse_template post_process_variable post_process_variables parse validate_parts
    template_of
parse_http_template input = template_of (parse (fuel_for input) (initial input))
