-- ===== src/CloudTrace/Header/Binary.antt =====
-- Lemmas on the gRPC header: what is read off it, and off the bytes that are written.
use native.Mathlib.Nat.{suc-add}
use esp.Base.{
  ℕ, zero, suc, ◌+◌, ◌*◌, ◌/◌, ◌%◌, ◌^◌, ◌≤◌, ◌<◌, ◌≡◌, inl, inr, refl, ap, ◌∙◌, true, ◌&&◌, Option,
  none, some, List, [], ◌∷◌, ◌++◌, Str, length, length-append, get_or, take, drop, ◌==◌, Bool-cases,
  arith,
}
use esp.CloudTrace.{k_default_trace_options, big_endian, grpc_trace_bin}
use esp.CloudTrace.Stream.Laws.{take-append}
use esp.CloudTrace.Header.{
  has_nonzero, load, is_grpc_trace_bin, read_bin, read_unescaped, read_grpc_trace_context,
}

length-take : (n : ℕ) (s : Str) → n ≤ length s → length (take n s) ≡ n
length-take zero s h = refl
length-take (suc n) [] h = absurd (omega arith)
length-take (suc n) (x ∷ s) h = ap suc (length-take n s (omega arith))

length-drop_two : (s : Str) → length s ≡ 29 → 16 ≤ length (drop 2 s)
length-drop_two [] h = omega arith
length-drop_two (x ∷ []) h = omega arith
length-drop_two (x ∷ y ∷ s) h = omega arith

length-big_endian : (k n : ℕ) → length (big_endian k n) ≡ k
unfolding big_endian
length-big_endian zero n = refl
length-big_endian (suc k) n = rw (length-append, length-big_endian k (n / 256)) (omega arith)

load-append : (n : ℕ) (s : Str) (c : ℕ) → load n (s ++ (c ∷ [])) ≡ load n s * 256 + c
unfolding load
load-append n [] c = refl
load-append n (x ∷ s) c = load-append (n * 256 + x) s c

load-big_endian : (k n : ℕ) → n < 256 ^ k → load 0 (big_endian k n) ≡ n
unfolding load big_endian
load-big_endian zero n h = omega arith
load-big_endian (suc k) n h =
    rw load-append (omega (arith, load-big_endian k (n / 256) (omega arith)))

get_or-append : (s t : Str) (i d : ℕ) → get_or (s ++ t) (length s + i) d ≡ get_or t i d
get_or-append [] t i d = ap (λ k. get_or t k d) (omega arith)
get_or-append (x ∷ s) t i d = rw suc-add (get_or-append s t i d)

drop-append_more : (s t : Str) (i : ℕ) → drop (length s + i) (s ++ t) ≡ drop i t
drop-append_more [] t i = ap (λ k. drop k t) (omega arith)
drop-append_more (x ∷ s) t i = rw suc-add (drop-append_more s t i)

read_bin_of :
    (hex : Str → Str) (s b span : Str)
    → (length s ≡ 29)
      × (get_or s 18 0 ≡ 1)
      × (get_or s 27 0 ≡ 2)
      × (get_or s 28 0 ≡ 1)
      × (take 16 (drop 2 s) ≡ b)
      × (take 8 (drop 19 s) ≡ span)
    → get_or s 0 0 ≡ 0
    → get_or s 1 0 ≡ 0
    → has_nonzero b ≡ true
    → read_bin hex s ≡ (some (hex b, load 0 span), k_default_trace_options)
read_bin_of hex s b span (l, second, third, flag, id, parent) version first nonzero =
    rw (l, version, first, second, third, flag, id, nonzero, parent) refl

-- The bytes that are written are accepted, for an id of 16 bytes that are not all 0.
pub read_bin-grpc_trace_bin :
    (hex : Str → Str) (b : Str) (span : ℕ)
    → length b ≡ 16
    → has_nonzero b ≡ true
    → span < 2 ^ 64
    → read_bin hex (grpc_trace_bin b span k_default_trace_options)
      ≡ (some (hex b, span), k_default_trace_options)
read_bin-grpc_trace_bin hex b span l nonzero fits =
    let n = length-big_endian 8 span in
    let tail = 1 ∷ big_endian 8 span ++ (2 ∷ 1 ∷ []) in
    let ends : List ℕ = 2 ∷ 1 ∷ [] in
    let whole : length (b ++ tail) ≡ 27 =
      rw (length-append b tail, l, length-append (big_endian 8 span) ends, n) refl in
    let second = rw l at (get_or-append b tail 0 0) in
    let third =
      rw l at (get_or-append b tail 9 0) ∙ rw n at (get_or-append (big_endian 8 span) ends 0 0) in
    let flag =
      rw l at (get_or-append b tail 10 0) ∙ rw n at (get_or-append (big_endian 8 span) ends 1 0) in
    let id = rw l at (take-append b tail) in
    let behind_id = rw l at (drop-append_more b tail 1) in
    let parent = rw n at (take-append (big_endian 8 span) ends) in
    read_bin_of hex (grpc_trace_bin b span k_default_trace_options) b (big_endian 8 span)
      (rw whole refl, second, third, flag, id, rw behind_id parent) refl refl nonzero
    ∙ ap (λ p. (some (hex b, p), k_default_trace_options)) (load-big_endian 8 span fits)

-- The bytes of an id that enables a trace.
pub data IsBytesOf (hex : Str → Str) (trace_id : Str) : Type 0 where
  bytes_of :
      (b : Str) → length b ≡ 16 → has_nonzero b ≡ true → trace_id ≡ hex b → IsBytesOf hex trace_id

read_bin_lem :
    (hex : Str → Str) (s trace_id options : Str) (parent : ℕ)
    → read_bin hex s ≡ (some (trace_id, parent), options)
    → IsBytesOf hex trace_id × (options ≡ k_default_trace_options)
read_bin_lem hex s trace_id options parent h =
    elim (Bool-cases (is_grpc_trace_bin s && get_or s 28 0 % 2 == 1)) [
      | inl p ↦ elim (Bool-cases (has_nonzero (take 16 (drop 2 s)))) [
        | inl q ↦
            let e = rw (p, q) at h in
            (
              bytes_of (take 16 (drop 2 s)) (length-take 16 _ (length-drop_two s (ground arith))) q
                  cc,
              cc,
            )
        | inr q ↦ let e = rw (p, q) at h in absurd cc
      ]
      | inr p ↦ let e = rw p at h in absurd cc
    ]

pub read_grpc_trace_context_lem :
    (unescape : Str → Option Str) (hex : Str → Str) (raw trace_id options : Str) (parent : ℕ)
    → read_grpc_trace_context unescape hex raw ≡ (some (trace_id, parent), options)
    → IsBytesOf hex trace_id × (options ≡ k_default_trace_options)
unfolding read_grpc_trace_context
read_grpc_trace_context_lem unescape hex raw trace_id options parent h = go (unescape raw) h
  where
    go :
        (o : Option Str)
        → read_unescaped hex o ≡ (some (trace_id, parent), options)
        → IsBytesOf hex trace_id × (options ≡ k_default_trace_options)
    go none e = absurd cc
    go (some s) e = read_bin_lem hex s trace_id options parent e
