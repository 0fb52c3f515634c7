-- ===== src/Signal/Names.antt =====
-- The conversions of signals, nstl/nstl/signal_barrier_common.cpp.
use nstl.Prelude.{
  ℕ, ◌≡◌, refl, sym, ap, ◌≢◌, ◌⊎◌, inl, inr, ◌==◌, ==_iff, Bool-cases, nstl_exception, ok, err,
}
use nstl.Signal.{
  SigVal, sig_int, sig_term, sig_quit, number, sigint, sigterm, sigquit, from_signal_conv,
  to_signal_conv,
}

-- The conversions are inverse on the three signals that the library waits for, and every other
-- number makes from_signal_conv throw.
pub from_signal_conv_cases :
    (value : ℕ)
    → ((sig : SigVal) × (from_signal_conv value ≡ ok sig)
        × (to_signal_conv sig ≡ number value)
        × ((value ≡ sigint) ⊎ (value ≡ sigterm) ⊎ (value ≡ sigquit)))
      ⊎ ((from_signal_conv value ≡ err nstl_exception)
          × (value ≢ sigint)
          × (value ≢ sigterm)
          × (value ≢ sigquit))
unfolding from_signal_conv to_signal_conv
from_signal_conv_cases value = elim (Bool-cases (value == sigint)) [
  | inl e ↦
      let at = (==_iff value sigint).0 e in inl (sig_int, simp e refl, ap number (sym at), inl at)
  | inr d ↦ elim (Bool-cases (value == sigterm)) [
    | inl e ↦
        let at = (==_iff value sigterm).0 e in
        inl (sig_term, simp (d, e) refl, ap number (sym at), inr (inl at))
    | inr c ↦ elim (Bool-cases (value == sigquit)) [
      | inl e ↦
          let at = (==_iff value sigquit).0 e in
          inl (sig_quit, simp (d, c, e) refl, ap number (sym at), inr (inr at))
      | inr b ↦ inr (
        simp (d, c, b) refl,
        λ at. let e = (==_iff value sigint).1 at in cc,
        λ at. let e = (==_iff value sigterm).1 at in cc,
        λ at. let e = (==_iff value sigquit).1 at in cc,
      )
    ]
  ]
]
