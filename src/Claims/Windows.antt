-- ===== src/Claims/Windows.antt =====
-- The windows of time that the validators of `exp`, `nbf` and `iat` leave open.
use turnkey_triumph_326606_m.Prelude.{
  ◌+◌, ◌≤◌, ◌≡◌, ◌↔◌, ap, ◌∙◌, codes, some, ok, inl, inr, Option-cases, arith,
}
use turnkey_triumph_326606_m.Time.{Timestamp}
use turnkey_triumph_326606_m.Claims.{
  Value, Codec, Claims, get, TimeOptions, when_of, time_not_after, time_not_before, freeze,
  extract_required_with_options,
}
use turnkey_triumph_326606_m.Claims.Standard.{exp, nbf}

module _ (ts_seconds : Codec Timestamp) where
  -- An expiry time is accepted exactly if the claim is there, decodes to it, and the time of the
  -- options, or else the current time, does not pass it by more than the leeway.
  pub exp_iff :
      (now : Timestamp) (claims : Claims) (o : TimeOptions) (t : Timestamp)
      → ((extract_required_with_options (exp ts_seconds) now claims (time_not_after o)).0 ≡ ok t)
        ↔ ((v : Value) × (get (codes "exp") claims ≡ some v)
            × (ts_seconds.from_value v ≡ some t)
            × (when_of now o.when ≤ t + o.leeway))
  unfolding extract_required_with_options time_not_after
  exp_iff now claims o t = (
    λ h. elim (Option-cases (get (codes "exp") claims)) [
      | inl e ↦ absurd (ground arith)
      | inr (v, e) ↦ elim (Option-cases (ts_seconds.from_value v)) [
        | inl k ↦ absurd (ground arith)
        | inr (u, k) ↦ let same : u ≡ t = ground arith in (v, e, k ∙ ap some same, ground arith)
      ]
    ],
    λ (v, e, decoded, early). ground arith,
  )

  -- A not-before time is accepted exactly if the claim is there, decodes to it, and it does not lie more
  -- than the leeway after the time of the options, or else the current time.
  pub nbf_iff :
      (now : Timestamp) (claims : Claims) (o : TimeOptions) (t : Timestamp)
      → ((extract_required_with_options (nbf ts_seconds) now claims (time_not_before o)).0 ≡ ok t)
        ↔ ((v : Value) × (get (codes "nbf") claims ≡ some v)
            × (ts_seconds.from_value v ≡ some t)
            × (t ≤ when_of now o.when + o.leeway))
  unfolding extract_required_with_options time_not_before
  nbf_iff now claims o t = (
    λ h. elim (Option-cases (get (codes "nbf") claims)) [
      | inl e ↦ absurd (ground arith)
      | inr (v, e) ↦ elim (Option-cases (ts_seconds.from_value v)) [
        | inl k ↦ absurd (ground arith)
        | inr (u, k) ↦ let same : u ≡ t = ground arith in (v, e, k ∙ ap some same, ground arith)
      ]
    ],
    λ (v, e, decoded, early). ground arith,
  )

  -- A frozen set of options accepts at every later moment what it accepts now.
  pub freeze-exp :
      (now later : Timestamp) (claims : Claims) (o : TimeOptions)
      → (extract_required_with_options
          (exp ts_seconds)
          later
          claims
          (time_not_after (freeze now o))).0
        ≡ (extract_required_with_options
            (exp ts_seconds)
            now
            claims
            (time_not_after (freeze now o))).0
  unfolding extract_required_with_options time_not_after freeze
  freeze-exp now later claims o = ground arith
