-- ===== src/MethodInfo/Backend.antt =====
-- `process_backend_rule` of src/api_manager/method_impl.cc: the split of a backend's address into the
-- address of the host and the path.
use mathlib.Core.Option
use esp.Base.{
  ℕ, zero, suc, ◌+◌, ◌≡◌, ◌≢◌, ◌∙◌, refl, sym, ap, ◌&&◌, Option, none, some, [], ◌∷◌, ◌++◌, Str,
  All, length, length-append, append_assoc, take, drop, find_first, is_empty, if◌then◌else◌, arith,
}
use esp.UrlUtil.{pop_back_if}
use esp.UrlUtil.Laws.{EndsElse, pop_back_if_self, pop_back_if_concat}
use esp.MethodInfo.{MethodInfo, PathTranslation, is_constant_address}

-- `s.find("/", i)`, with `none` for `npos`.
pub find_slash : ℕ → Str → Option ℕ
find_slash i s = Option.map (λ k. i + k) (find_first b'/' (drop i s))

-- `i + 1`; that of `npos` is 0.
abbrev pub next : Option ℕ → ℕ
next none = 0
next (some i) = suc i

-- The three searches for a slash.
pub third_slash : Str → Option ℕ
third_slash s = find_slash (next (find_slash (next (find_slash 0 s)) s)) s

abbrev pub address_at : Option ℕ → Str → Str
address_at none s = s
address_at (some i) s = take i s

abbrev pub path_at : Option ℕ → Str → Str → Str
path_at none s old = old
path_at (some i) s old = drop i s

-- An empty path of a constant address is treated as a slash.
abbrev pub path_or_slash : PathTranslation → Str → Str
path_or_slash translation path =
    if is_empty path && is_constant_address translation then b'/' ∷ [] else path

pub split_address : Option ℕ → Str → PathTranslation → Str → MethodInfo → MethodInfo
split_address i address translation jwt_audience m = record m {
  backend_address = address_at i address;
  backend_path = path_or_slash translation (path_at i address m.backend_path);
  backend_path_translation = translation;
  backend_jwt_audience = jwt_audience;
}

-- `process_backend_rule`; the last byte of an empty address is not defined: `none`.
pub process_backend_rule : Str → PathTranslation → Str → MethodInfo → Option MethodInfo
process_backend_rule address translation jwt_audience m =
    Option.map
      (λ stripped. split_address (third_slash stripped) stripped translation jwt_audience m)
      (pop_back_if b'/' address)

abbrev pub LacksSlash : Str → Type 0
LacksSlash s = All (λ x. x ≢ b'/') s

drop_nil : (k : ℕ) → drop {A = ℕ} k [] ≡ []
drop_nil zero = refl
drop_nil (suc k) = refl

drop-drop : (i j : ℕ) (s : Str) → drop (i + j) s ≡ drop j (drop i s)
drop-drop zero j s = let same : 0 + j ≡ j = omega arith in ap (λ k. drop k s) same
drop-drop (suc i) j [] = drop_nil (suc i + j) ∙ sym (drop_nil j)
drop-drop (suc i) j (x ∷ s) =
    let shifted : suc i + j ≡ suc (i + j) = omega arith in
    ap (λ k. drop k (x ∷ s)) shifted ∙ drop-drop i j s

find_first-append : (s t : Str) → LacksSlash s → find_first b'/' (s ++ (b'/' ∷ t)) ≡ some (length s)
find_first-append [] t h = ground arith
find_first-append (x ∷ s) t (n, h) = let ih = find_first-append s t h in ground arith

find_first-none : (s : Str) → LacksSlash s → find_first b'/' s ≡ none
find_first-none [] h = refl
find_first-none (x ∷ s) (n, h) = let ih = find_first-none s h in ground arith

drop-append : (s t : Str) → drop (suc (length s)) (s ++ (b'/' ∷ t)) ≡ t
drop-append [] t = refl
drop-append (x ∷ s) t = drop-append s t

find_slash_here :
    (i : ℕ) (s b t : Str)
    → drop i s ≡ b ++ (b'/' ∷ t)
    → LacksSlash b
    → (find_slash i s ≡ some (i + length b)) × (drop (suc (i + length b)) s ≡ t)
unfolding find_slash
find_slash_here i s b t e h =
    let later : suc (i + length b) ≡ i + suc (length b) = omega arith in
    (
      ap (λ x. Option.map (λ k. i + k) (find_first b'/' x)) e
          ∙ ap (Option.map (λ k. i + k)) (find_first-append b t h),
      ap (λ k. drop k s) later
          ∙ drop-drop i (suc (length b)) s
          ∙ ap (drop (suc (length b))) e
          ∙ drop-append b t,
    )

find_slash-none : (i : ℕ) (s b : Str) → drop i s ≡ b → LacksSlash b → find_slash i s ≡ none
unfolding find_slash
find_slash-none i s b e h =
    ap (λ x. Option.map (λ k. i + k) (find_first b'/' x)) e
    ∙ ap (Option.map (λ k. i + k)) (find_first-none b h)

-- The positions after the first slash, and after the second.
abbrev second_from : Str → ℕ
second_from a = suc (0 + length a)

abbrev third_from : Str → Str → ℕ
third_from a b = suc (second_from a + length b)

third_slash_of_three :
    (a b c p : Str)
    → LacksSlash a
    → LacksSlash b
    → LacksSlash c
    → third_slash (a ++ (b'/' ∷ b ++ (b'/' ∷ c ++ (b'/' ∷ p)))) ≡ some (third_from a b + length c)
unfolding third_slash
third_slash_of_three a b c p ha hb hc =
    let tail = c ++ (b'/' ∷ p) in
    let s = a ++ (b'/' ∷ b ++ (b'/' ∷ tail)) in
    let (first, after_first) = find_slash_here 0 s a (b ++ (b'/' ∷ tail)) refl ha in
    let (second, after_second) = find_slash_here (second_from a) s b tail after_first hb in
    let (third, _) = find_slash_here (third_from a b) s c p after_second hc in
    ap (λ i. find_slash (next (find_slash (next i) s)) s) first
    ∙ ap (λ i. find_slash (next i) s) second
    ∙ third

third_slash_of_two :
    (a b c : Str)
    → LacksSlash a
    → LacksSlash b
    → LacksSlash c
    → third_slash (a ++ (b'/' ∷ b ++ (b'/' ∷ c))) ≡ none
unfolding third_slash
third_slash_of_two a b c ha hb hc =
    let s = a ++ (b'/' ∷ b ++ (b'/' ∷ c)) in
    let (first, after_first) = find_slash_here 0 s a (b ++ (b'/' ∷ c)) refl ha in
    let (second, after_second) = find_slash_here (second_from a) s b c after_first hb in
    ap (λ i. find_slash (next (find_slash (next i) s)) s) first
    ∙ ap (λ i. find_slash (next i) s) second
    ∙ find_slash-none (third_from a b) s c after_second hc

third_slash_of_one :
    (a b : Str) → LacksSlash a → LacksSlash b → third_slash (a ++ (b'/' ∷ b)) ≡ some (0 + length a)
unfolding third_slash
third_slash_of_one a b ha hb =
    let s = a ++ (b'/' ∷ b) in
    let (first, after_first) = find_slash_here 0 s a b refl ha in
    ap (λ i. find_slash (next (find_slash (next i) s)) s) first
    ∙ ap (λ i. find_slash (next i) s) (find_slash-none (second_from a) s b after_first hb)
    ∙ first

third_slash_of_zero : (a : Str) → LacksSlash a → third_slash a ≡ none
unfolding third_slash
third_slash_of_zero a ha =
    let missing = find_slash-none 0 a a refl ha in
    ap (λ i. find_slash (next (find_slash (next i) a)) a) missing
    ∙ ap (λ i. find_slash (next i) a) missing
    ∙ missing

take-length : (s t : Str) → take (length s) (s ++ t) ≡ s
take-length [] t = refl
take-length (x ∷ s) t = ap (λ r. x ∷ r) (take-length s t)

drop-length : (s t : Str) → drop (length s) (s ++ t) ≡ t
drop-length [] t = refl
drop-length (x ∷ s) t = drop-length s t

EndsElse-append : (c : ℕ) (s t : Str) → EndsElse c t → EndsElse c (s ++ t)
EndsElse-append c [] t h = h
EndsElse-append c (y ∷ []) [] h = elim h [ ]
EndsElse-append c (y ∷ []) (z ∷ t) h = h
EndsElse-append c (y ∷ w ∷ s) t h = EndsElse-append c (w ∷ s) t h

-- What a rule does whose address is split behind `host`.
split_behind :
    (host path : Str) (translation : PathTranslation) (jwt_audience : Str) (m : MethodInfo)
    → third_slash (host ++ path) ≡ some (length host)
    → EndsElse b'/' (host ++ path)
    → process_backend_rule (host ++ path) translation jwt_audience m
      ≡ some (record m {
        backend_address = host;
        backend_path = path_or_slash translation path;
        backend_path_translation = translation;
        backend_jwt_audience = jwt_audience;
      })
unfolding process_backend_rule split_address
split_behind host path translation jwt_audience m third ends =
    rw (pop_back_if_self b'/' (host ++ path) ends)
      (rw third (rw (take-length host path, drop-length host path) refl))

-- Three parts with a slash between them, such as `scheme://host`.
abbrev pub host_of : Str → Str → Str → Str
host_of a b c = a ++ (b'/' ∷ b ++ (b'/' ∷ c))

host_of-append : (a b c t : Str) → host_of a b c ++ t ≡ a ++ (b'/' ∷ b ++ (b'/' ∷ c ++ t))
host_of-append a b c t =
    append_assoc a (b'/' ∷ b ++ (b'/' ∷ c)) t
    ∙ ap (λ x. a ++ (b'/' ∷ x)) (append_assoc b (b'/' ∷ c) t)

length-host_of : (a b c : Str) → length (host_of a b c) ≡ third_from a b + length c
length-host_of a b c =
    omega (arith, length-append a (b'/' ∷ b ++ (b'/' ∷ c)), length-append b (b'/' ∷ c))

-- A full url of three parts without slashes, such as `scheme://host`, and a path is split behind
-- the host: a path that is more than a slash, and does not end in one, becomes the backend's
-- path, and what is before it the backend's address.
pub process_backend_rule_full :
    (a b c p : Str) (translation : PathTranslation) (jwt_audience : Str) (m : MethodInfo)
    → LacksSlash a
    → LacksSlash b
    → LacksSlash c
    → EndsElse b'/' (b'/' ∷ p)
    → process_backend_rule (host_of a b c ++ (b'/' ∷ p)) translation jwt_audience m
      ≡ some (record m {
        backend_address = host_of a b c;
        backend_path = b'/' ∷ p;
        backend_path_translation = translation;
        backend_jwt_audience = jwt_audience;
      })
process_backend_rule_full a b c p translation jwt_audience m ha hb hc ends =
    split_behind (host_of a b c) (b'/' ∷ p) translation jwt_audience m
      (ap third_slash (host_of-append a b c (b'/' ∷ p))
        ∙ third_slash_of_three a b c p ha hb hc
        ∙ ap some (sym (length-host_of a b c)))
      (EndsElse-append b'/' (host_of a b c) (b'/' ∷ p) ends)

-- An address with a single slash in it, which is not its last byte, is no full url, and is split
-- at that slash all the same, since the search starts again at 0 behind the last slash.
pub process_backend_rule_one_slash :
    (a b : Str) (translation : PathTranslation) (jwt_audience : Str) (m : MethodInfo)
    → LacksSlash a
    → LacksSlash b
    → EndsElse b'/' (b'/' ∷ b)
    → process_backend_rule (a ++ (b'/' ∷ b)) translation jwt_audience m
      ≡ some (record m {
        backend_address = a;
        backend_path = b'/' ∷ b;
        backend_path_translation = translation;
        backend_jwt_audience = jwt_audience;
      })
process_backend_rule_one_slash a b translation jwt_audience m ha hb ends =
    let here : 0 + length a ≡ length a = omega arith in
    split_behind a (b'/' ∷ b) translation jwt_audience m
      (third_slash_of_one a b ha hb ∙ ap some here) (EndsElse-append b'/' a (b'/' ∷ b) ends)

-- A url with a slash behind its host and no path keeps its address without that slash; the
-- backend's path stays, or becomes a slash where it is empty and the address is constant.
pub process_backend_rule_no_path :
    (a b c : Str) (translation : PathTranslation) (jwt_audience : Str) (m : MethodInfo)
    → LacksSlash a
    → LacksSlash b
    → LacksSlash c
    → process_backend_rule (host_of a b c ++ (b'/' ∷ [])) translation jwt_audience m
      ≡ some (record m {
        backend_address = host_of a b c;
        backend_path = path_or_slash translation m.backend_path;
        backend_path_translation = translation;
        backend_jwt_audience = jwt_audience;
      })
unfolding process_backend_rule split_address
process_backend_rule_no_path a b c translation jwt_audience m ha hb hc =
    rw (pop_back_if_concat b'/' (host_of a b c)) (rw (third_slash_of_two a b c ha hb hc) refl)
