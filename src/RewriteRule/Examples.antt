-- ===== src/RewriteRule/Examples.antt =====
-- Runs of the rewrite rules of src/api_manager/rewrite_rule.cc and a concrete case of their theorem.
use esp.Base.{ℕ, ◌==◌, if◌then◌else◌, ◌≡◌, refl, true, some, List, [], ◌∷◌, Str, bytes}
use esp.RewriteRule.{
  ReplacementSegment, text, replacement, replacement_parts, matched, expand, check, valid,
  invalid_format, absolute_url, validate_rewrite_rule,
}
use esp.RewriteRule.Parts.{SpellsUpToDollar, replacement_parts-Spells}

abbrev target : Str
target = bytes "/b/$1x$$12"

abbrev target_parts : List ReplacementSegment
target_parts =
    text (bytes "/b/") ∷ replacement 1 ∷ text (bytes "x") ∷ text (bytes "$") ∷ replacement 12 ∷ []

target_split : replacement_parts target ≡ some target_parts
unfolding replacement_parts
target_split = refl

last_dollar_dropped : replacement_parts (bytes "a$") ≡ some (text (bytes "a") ∷ [])
unfolding replacement_parts
last_dollar_dropped = refl

substrings : ℕ → Str
substrings n = if n == 1 then bytes "one" else bytes "zero"

rewritten : check (matched 2 substrings) target_parts ≡ some (bytes "/b/onex$")
unfolding check expand substrings
rewritten = refl

three_words : validate_rewrite_rule (λ p. true) (bytes "a b c") ≡ invalid_format
unfolding validate_rewrite_rule
three_words = refl

url_refused : validate_rewrite_rule (λ p. true) (bytes " a  http://b") ≡ absolute_url
unfolding validate_rewrite_rule
url_refused = refl

rule_accepted : validate_rewrite_rule (λ p. true) (bytes "^/a(.*) /b$1") ≡ valid
unfolding validate_rewrite_rule
rule_accepted = refl

replacement_parts-Spells_example : SpellsUpToDollar target_parts target
replacement_parts-Spells_example = replacement_parts-Spells target target_parts target_split
