-- ===== src/CloudTrace/Sampling.antt =====
-- A sampler over any order of requests, from its constructor on, enabled or not: which of the
-- requests that no header enables are traced.
use esp.Base.{
  not_false, ℕ, ◌≡◌, ◌↔◌, ◌⊎◌, inl, inr, refl, sym, ap₂, subst, ◌∙◌, Bool, true, false, Option,
  none, some, Str, Bool-cases,
}
use esp.Base.Int.{ℤ, pos, ◌-ℤ◌}
use esp.CloudTrace.{HeaderType, CloudTrace}
use esp.CloudTrace.Header.{Ids}
use esp.CloudTrace.Create.{
  Sampler, new_sampler, Env, Absl, on, refresh, read_header, turned_on, triggered,
  create_cloud_trace,
}

-- The time of the last request that is traced, after a request at a time.
abbrev last_traced : ℕ → ℕ → Option CloudTrace → ℕ
last_traced now last none = last
last_traced now last (some t) = now

module _ {D : Type 0} (absl : Absl) (is_longer : ℤ → D → Bool) (is_zero : D → Bool)
    (inverse : D → D) (former qps : D) where
  -- A sampler, with the time of the last request that was traced.
  pub data History : Sampler D → ℕ → Type 0 where
    started : History (new_sampler is_zero inverse former qps) 0
    requested :
        (env : Env) (context name : Str) (type : HeaderType) (s s' : Sampler D) (last : ℕ)
        (t : Option CloudTrace)
        → History s last
        → create_cloud_trace absl is_longer env context name type (some s) ≡ (t, some s')
        → History s' (last_traced env.now last t)

  -- What a sampler keeps.
  record IsAt (s : Sampler D) (last : ℕ) : Type 0 where
    disabled : s.is_disabled ≡ is_zero qps
    enabled : is_zero qps ≡ false → (s.previous ≡ last) × (s.duration ≡ inverse qps)

  on_disabled : (now : ℕ) (s : Sampler D) → s.is_disabled ≡ true → on is_longer now s ≡ (false, s)
  unfolding on
  on_disabled now s e = simp e

  on_longer :
      (now : ℕ) (s : Sampler D)
      → s.is_disabled ≡ false
      → is_longer (pos now -ℤ pos s.previous) s.duration ≡ true
      → on is_longer now s ≡ (true, record s { previous = now })
  unfolding on
  on_longer now s e f = simp (e, f)

  on_shorter :
      (now : ℕ) (s : Sampler D)
      → s.is_disabled ≡ false
      → is_longer (pos now -ℤ pos s.previous) s.duration ≡ false
      → on is_longer now s ≡ (false, s)
  unfolding on
  on_shorter now s e f = simp (e, f)

  -- What a request leaves, where it leaves a sampler.
  abbrev LeavesAt : ℕ → ℕ → Option CloudTrace × Option (Sampler D) → Type 0
  LeavesAt now last (t, none) = Unit
  LeavesAt now last (t, some s) = IsAt s (last_traced now last t)

  -- A sampler that is disabled may be at any time.
  IsAt-disabled :
      (s : Sampler D) (last : ℕ) → is_zero qps ≡ true → s.is_disabled ≡ true → IsAt s last
  IsAt-disabled s last zero_qps off = record {
    disabled = off ∙ sym zero_qps;
    enabled = λ e. absurd (not_false (sym zero_qps ∙ e));
  }

  -- A request that is traced moves an enabled sampler.
  moved-IsAt : (now last : ℕ) (s : Sampler D) → IsAt s last → IsAt (record s { previous = now }) now
  moved-IsAt now last s h = record { disabled = h.disabled; enabled = λ e. (refl, (h.enabled e).1) }

  chosen-LeavesAt :
      (env : Env) (name : Str) (type : HeaderType) (s : Sampler D) (last : ℕ)
      → IsAt s last
      → LeavesAt env.now last (turned_on absl is_longer env name type (on is_longer env.now s))
  chosen-LeavesAt env name type s last h = elim (Bool-cases s.is_disabled) [
    | inl off ↦ rw (on_disabled env.now s off) h
    | inr enabled ↦ elim (Bool-cases (is_longer (pos env.now -ℤ pos s.previous) s.duration)) [
      | inl p ↦ rw (on_longer env.now s enabled p) (moved-IsAt env.now last s h)
      | inr p ↦ rw (on_shorter env.now s enabled p) h
    ]
  ]

  refresh_disabled : (now : ℕ) (s : Sampler D) → s.is_disabled ≡ true → refresh now s ≡ s
  unfolding refresh
  refresh_disabled now s e = simp e

  refresh_enabled :
      (now : ℕ) (s : Sampler D)
      → s.is_disabled ≡ false
      → refresh now s ≡ record s { previous = now }
  unfolding refresh
  refresh_enabled now s e = simp e

  refresh-IsAt : (now last : ℕ) (s : Sampler D) → IsAt s last → IsAt (refresh now s) now
  refresh-IsAt now last s h = elim (Bool-cases s.is_disabled) [
    | inl off ↦
        subst (λ u. IsAt u now) (sym (refresh_disabled now s off))
          (IsAt-disabled s now (sym h.disabled ∙ off) off)
    | inr enabled ↦
        subst (λ u. IsAt u now) (sym (refresh_enabled now s enabled)) (moved-IsAt now last s h)
  ]

  triggered-LeavesAt :
      (env : Env) (name : Str) (type : HeaderType) (s : Sampler D) (last : ℕ) (r : Option Ids × Str)
      → IsAt s last
      → LeavesAt env.now last (triggered absl is_longer env name type (some s) r)
  triggered-LeavesAt env name type s last (none, options) h = chosen-LeavesAt env name type s last h
  triggered-LeavesAt env name type s last (some ids, options) h = refresh-IsAt env.now last s h

  new_sampler-IsAt : IsAt (new_sampler is_zero inverse former qps) 0
  new_sampler-IsAt = elim (Bool-cases (is_zero qps)) [
    | inl e ↦ rw e (record { disabled = sym e; enabled = λ f. absurd (not_false (sym e ∙ f)) })
    | inr e ↦ rw e (record { disabled = sym e; enabled = λ f. (refl, refl) })
  ]

  History-IsAt : (s : Sampler D) (last : ℕ) → History s last → IsAt s last
  unfolding create_cloud_trace
  History-IsAt _ _ started = new_sampler-IsAt
  History-IsAt _ _ (requested env context name type s s' last t r e) =
      subst (LeavesAt env.now last) e (
        triggered-LeavesAt env name type s last (read_header absl type context)
          (History-IsAt s last r))

  -- A request whose header enables no trace is left without one exactly where the rate of the sampler
  -- is zero or the time since the last request that was traced, or since the epoch, is not longer
  -- than the inverse of the rate.
  pub create_cloud_trace-sampled :
      (s : Sampler D) (last : ℕ) (env : Env) (context name : Str) (type : HeaderType)
      → History s last
      → (read_header absl type context).0 ≡ none
      → ((create_cloud_trace absl is_longer env context name type (some s)).0 ≡ none)
        ↔ ((is_zero qps ≡ true) ⊎ (is_longer (pos env.now -ℤ pos last) (inverse qps) ≡ false))
  unfolding create_cloud_trace
  create_cloud_trace-sampled s last env context name type r h =
      choice (read_header absl type context) h
    where
      at : IsAt s last
      at = History-IsAt s last r

      test :
          is_zero qps ≡ false
          → is_longer (pos env.now -ℤ pos s.previous) s.duration
            ≡ is_longer (pos env.now -ℤ pos last) (inverse qps)
      test e = ap₂ (λ p d. is_longer (pos env.now -ℤ pos p) d) (at.enabled e).0 (at.enabled e).1

      choice :
          (q : Option Ids × Str)
          → q.0 ≡ none
          → ((triggered absl is_longer env name type (some s) q).0 ≡ none)
            ↔ ((is_zero qps ≡ true) ⊎ (is_longer (pos env.now -ℤ pos last) (inverse qps) ≡ false))
      choice (some ids, options) e = absurd cc
      choice (none, options) e = elim (Bool-cases (is_zero qps)) [
        | inl off ↦ rw (on_disabled env.now s (at.disabled ∙ off)) ((λ q. inl off), (λ q. refl))
        | inr enabled ↦
            let running = at.disabled ∙ enabled in
            elim (Bool-cases (is_longer (pos env.now -ℤ pos s.previous) s.duration)) [
              | inl p ↦ rw (on_longer env.now s running p) (
                (λ q. absurd cc),
                (λ q. elim q [
                  | inl off ↦ absurd (not_false (sym off ∙ enabled))
                  | inr short ↦ absurd (not_false (sym p ∙ test enabled ∙ short))
                ]),
              )
              | inr p ↦
                  rw (on_shorter env.now s running p)
                    ((λ q. inr (sym (test enabled) ∙ p)), (λ q. refl))
            ]
      ]
