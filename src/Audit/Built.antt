-- ===== src/Audit/Built.antt =====
-- internal/audit/compliance.go: what `BuildReport` exports verifies.
use riskkernel.Base.{ℕ, suc, pos, ◌≡◌, codes_eq_refl, none, List, [], ◌∷◌, Time}
use riskkernel.Audit.{
  Raw, Hashing, RunData, chain_hash, link_events, last_hash, verify_from, verify_chain,
  build_events, build_report, sort_stable, collected,
}

module _ {D : Type 0} ⦃H : Hashing D⦄ where
  verify-link_events :
      (rs : List (Raw D)) (prev : List ℕ) (i j : ℕ)
      → verify_from prev j (link_events prev i rs) (last_hash prev (link_events prev i rs)) ≡ none
  unfolding verify_from link_events last_hash
  verify-link_events [] prev i j = rw (codes_eq_refl prev)
  verify-link_events (r ∷ rs) prev i j =
      let h = chain_hash prev (pos i) r.kind r.at r.detail in
      rw (codes_eq_refl h) (verify-link_events rs h (suc i) (suc j))

  -- The auditor's check accepts every exported report: the events of `BuildReport` verify against
  -- its chain head.
  pub verify_chain-build_report :
      (d : RunData D) (now : Time)
      → verify_chain (build_report d now).events (build_report d now).chain_head ≡ none
  unfolding verify_chain build_report build_events
  verify_chain-build_report d now = verify-link_events (sort_stable (collected d)) [] 0 0
