-- ===== src/UrlUtil/Laws.antt =====
-- The spellings of a url that `GetUrlContent` takes for the same.
use mathlib.Core.Option
use esp.Base.{ℕ, ◌≡◌, ◌≢◌, ◌∙◌, ap, false, some, [], ◌∷◌, ◌++◌, Str, arith}
use esp.UrlUtil.{
  http_prefix, https_prefix, pop_back_if, strip_scheme, get_url_content, is_http_request,
}

-- A string that is not empty and has another last byte.
abbrev pub EndsElse : ℕ → Str → Type 0
EndsElse c [] = ⊥
EndsElse c (x ∷ []) = x ≢ c
EndsElse c (x ∷ y ∷ s) = EndsElse c (y ∷ s)

pub pop_back_if_self : (c : ℕ) (s : Str) → EndsElse c s → pop_back_if c s ≡ some s
unfolding pop_back_if
pop_back_if_self c [] h = elim h [ ]
pop_back_if_self c (x ∷ []) h = ground arith
pop_back_if_self c (x ∷ y ∷ s) h = ap (Option.map (λ t. x ∷ t)) (pop_back_if_self c (y ∷ s) h)

pub pop_back_if_concat : (c : ℕ) (s : Str) → pop_back_if c (s ++ (c ∷ [])) ≡ some s
unfolding pop_back_if
pop_back_if_concat c [] = ground arith
pop_back_if_concat c (x ∷ []) = ap (Option.map (λ t. x ∷ t)) (pop_back_if_concat c [])
pop_back_if_concat c (x ∷ y ∷ s) = ap (Option.map (λ t. x ∷ t)) (pop_back_if_concat c (y ∷ s))

-- A url with no scheme and no slash at its end is the content of itself and of the urls that have
-- either scheme in front of it or none, and a slash behind it or none.
pub get_url_content_same :
    (s : Str)
    → is_http_request s ≡ false
    → is_http_request (s ++ (b'/' ∷ [])) ≡ false
    → EndsElse b'/' s
    → (get_url_content s ≡ some s)
      × (get_url_content (s ++ (b'/' ∷ [])) ≡ some s)
      × (get_url_content (http_prefix ++ s) ≡ some s)
      × (get_url_content (http_prefix ++ (s ++ (b'/' ∷ []))) ≡ some s)
      × (get_url_content (https_prefix ++ s) ≡ some s)
      × (get_url_content (https_prefix ++ (s ++ (b'/' ∷ []))) ≡ some s)
unfolding get_url_content pop_back_if
get_url_content_same s p q h = (
  plain s p ∙ pop_back_if_self b'/' s h,
  plain (s ++ (b'/' ∷ [])) q ∙ pop_back_if_concat b'/' s,
  pop_back_if_self b'/' s h,
  pop_back_if_concat b'/' s,
  pop_back_if_self b'/' s h,
  pop_back_if_concat b'/' s,
)
  where
    plain : (t : Str) → is_http_request t ≡ false → get_url_content t ≡ pop_back_if b'/' t
    plain t e = unfold get_url_content strip_scheme is_http_request in ground arith
