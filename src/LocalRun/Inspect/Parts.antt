-- ===== src/LocalRun/Inspect/Parts.antt =====
-- What an inspection of a run has read, and that it reads the same as long as the files are there.
use goalrail.Base.{
  String, Bool, true, false, Option, none, some, ◌≡◌, arith, ◌==◌, ◌∙◌, not, ◌&&◌, subst, inl, inr,
  sym,
}
use goalrail.LocalRun.Types.{LaunchClaim, ProviderObservation, TerminalReceipt}
use goalrail.LocalRun.Action.{
  Files, ok, Action, RunError, >>=-eq-ok, optional-eq-ok, optional, raise_if, pure, ◌>>◌, ◌>>=◌,
  failed_with, guarded-eq-ok, pure-eq-ok, optional_same,
}
use goalrail.LocalRun.Store.{Disk, Json, read_json, run_path}
use goalrail.LocalRun.Store.Once.{read_json_same}
use goalrail.LocalRun.Store.Written.{Reads, read_json-eq-ok, read_json-Reads}
use goalrail.LocalRun.Host.{Host}
use goalrail.LocalRun.Validate.{validate_launch_claim}
use goalrail.LocalRun.Inspect.{
  RunInspection, read_own, read_claim, read_observation, read_receipt, inspect_run, observation_of,
  receipt_of, belongs, inspected_state, is_canonical_id,
}

-- What the optional record says of the file.
abbrev pub Present : {Bytes A : Type 0} → Json A Bytes → String → Option A → Files Bytes → Type 0
Present json path none s = Unit {0}
Present json path (some a) s = Reads json path a s

module _ {Bytes A : Type 0} (json : Json A Bytes) (disk : Disk) (test : A → Bool) (e : RunError)
    (path : String) where
  pub read_own-eq-ok :
      (o : Option A) (s t : Files Bytes)
      → read_own json disk test e path s ≡ (ok o, t)
      → (belongs test o ≡ true) × Present json path o s × (s ≡ t)
  unfolding read_own
  read_own-eq-ok o s t h =
      let (p, u, got, rest) =
        >>=-eq-ok (optional (read_json json disk path))
          (λ stored. raise_if (not (belongs test stored)) e >> pure stored) s h in
      let (clear, ended) = guarded-eq-ok (not (belongs test p)) e (pure p) u rest in
      let (same, stay) = pure-eq-ok p o u t ended in
      let passes : belongs test p ≡ true = ground arith in
      let whole : s ≡ u =
        optional_same (read_json json disk path) s (read_json_same json disk path s) got in
      let read : Present json path p s = elim (optional-eq-ok (read_json json disk path) s got) [
        | inl (nothing, _) ↦ rw nothing tt
        | inr (a, some_, ended_) ↦ rw some_ (read_json-eq-ok json path disk a s u ended_).0
      ] in
      (
        subst (λ q. belongs test q ≡ true) same passes,
        subst (λ q. Present json path q s) same read,
        whole ∙ stay,
      )

  pub read_own-Reads :
      (a : A) (s : Files Bytes)
      → ((key : String) → disk.unreadable key ≡ false)
      → Reads json path a s
      → test a ≡ true
      → read_own json disk test e path s ≡ (ok (some a), s)
  unfolding read_own
  read_own-Reads a s readable there passes =
      rw (read_json-Reads json path disk a s readable there, passes)

module _ {Bytes : Type 0} (host : Host Bytes) (disk : Disk) where
  pub read_claim-eq-ok :
      (run_id : String) (claim : LaunchClaim) (s t : Files Bytes)
      → read_claim host disk run_id s ≡ (ok claim, t)
      → (is_canonical_id run_id ≡ true)
        × Reads host.claims (run_path run_id "launch-claim.json") claim s
        × ((validate_launch_claim claim && claim.run_id == run_id) ≡ true)
        × (s ≡ t)
  unfolding read_claim
  read_claim-eq-ok run_id claim s t h =
      let k : LaunchClaim → Action Bytes LaunchClaim = λ c.
        raise_if (not (validate_launch_claim c && c.run_id == run_id))
          (failed_with "invalid stored launch claim")
        >> pure c in
      let (canonical, h1) =
        guarded-eq-ok (not (is_canonical_id run_id)) (failed_with "invalid run ID")
          (read_json host.claims disk (run_path run_id "launch-claim.json") >>= k) s h in
      let (c, s2, got, h2) =
        >>=-eq-ok (read_json host.claims disk (run_path run_id "launch-claim.json")) k s h1 in
      let (there, same) =
        read_json-eq-ok host.claims (run_path run_id "launch-claim.json") disk c s s2 got in
      let (valid, ended) =
        guarded-eq-ok (not (validate_launch_claim c && c.run_id == run_id))
          (failed_with "invalid stored launch claim") (pure c) s2 h2 in
      let (this, stay) = pure-eq-ok c claim s2 t ended in
      let valid_ : (validate_launch_claim c && c.run_id == run_id) ≡ true = ground arith in
      (
        ground arith,
        subst (λ x. Reads host.claims (run_path run_id "launch-claim.json") x s) this there,
        subst (λ x. (validate_launch_claim x && x.run_id == run_id) ≡ true) this valid_,
        same ∙ stay,
      )

  pub read_claim-Reads :
      (run_id : String) (claim : LaunchClaim) (s : Files Bytes)
      → ((key : String) → disk.unreadable key ≡ false)
      → is_canonical_id run_id ≡ true
      → Reads host.claims (run_path run_id "launch-claim.json") claim s
      → (validate_launch_claim claim && claim.run_id == run_id) ≡ true
      → read_claim host disk run_id s ≡ (ok claim, s)
  unfolding read_claim
  read_claim-Reads run_id claim s readable canonical there valid =
      rw (canonical, read_json-Reads host.claims _ disk claim s readable there, valid)

  -- What an inspection has read of the store.
  pub inspect_run-eq-ok :
      (run_id : String) (i : RunInspection) (s t : Files Bytes)
      → inspect_run host disk run_id s ≡ (ok i, t)
      → (is_canonical_id run_id ≡ true)
        × Reads host.claims (run_path run_id "launch-claim.json") i.claim s
        × ((validate_launch_claim i.claim && i.claim.run_id == run_id) ≡ true)
        × (belongs (observation_of i.claim) i.observation ≡ true)
        × Present host.observations (run_path run_id "provider-observation.json") i.observation s
        × (belongs (receipt_of i.claim) i.receipt ≡ true)
        × Present host.receipts (run_path run_id "terminal-receipt.json") i.receipt s
        × (s ≡ t)
  unfolding inspect_run read_observation read_receipt
  inspect_run-eq-ok run_id i s t h =
      let view : LaunchClaim → Option ProviderObservation → Option TerminalReceipt → RunInspection =
        λ c o r. record { claim = c; observation = o; receipt = r; state = inspected_state o r } in
      let (c, s1, got_claim, h1) =
        >>=-eq-ok (read_claim host disk run_id)
          (λ c. read_observation host disk run_id c >>= λ o.
            read_receipt host disk run_id c >>= λ r. pure (view c o r))
          s h in
      let (o, s2, got_observation, h2) =
        >>=-eq-ok (read_observation host disk run_id c)
          (λ o. read_receipt host disk run_id c >>= λ r. pure (view c o r)) s1 h1 in
      let (r, s3, got_receipt, h3) =
        >>=-eq-ok (read_receipt host disk run_id c) (λ r. pure (view c o r)) s2 h2 in
      let (this, stay) = pure-eq-ok (view c o r) i s3 t h3 in
      let (canonical, claim_read, claim_valid, same1) = read_claim-eq-ok run_id c s s1 got_claim in
      let (own, observation_read, same2) =
        read_own-eq-ok host.observations disk _ _ _ o s1 s2 got_observation in
      let (mine, receipt_read, same3) =
        read_own-eq-ok host.receipts disk _ _ _ r s2 s3 got_receipt in
      let whole2 : s ≡ s2 = same1 ∙ same2 in
      subst
        (λ j.
          (is_canonical_id run_id ≡ true)
          × Reads host.claims (run_path run_id "launch-claim.json") j.claim s
          × ((validate_launch_claim j.claim && j.claim.run_id == run_id) ≡ true)
          × (belongs (observation_of j.claim) j.observation ≡ true)
          × Present host.observations (run_path run_id "provider-observation.json") j.observation s
          × (belongs (receipt_of j.claim) j.receipt ≡ true)
          × Present host.receipts (run_path run_id "terminal-receipt.json") j.receipt s
          × (s ≡ t))
        this
        (
          canonical,
          claim_read,
          claim_valid,
          own,
          subst (Present host.observations _ o) (sym same1) observation_read,
          mine,
          subst (Present host.receipts _ r) (sym whole2) receipt_read,
          whole2 ∙ same3 ∙ stay,
        )

  pub inspect_run-Reads :
      (run_id : String) (c : LaunchClaim) (o : ProviderObservation) (r : TerminalReceipt)
      (s : Files Bytes)
      → ((key : String) → disk.unreadable key ≡ false)
      → is_canonical_id run_id ≡ true
      → Reads host.claims (run_path run_id "launch-claim.json") c s
      → (validate_launch_claim c && c.run_id == run_id) ≡ true
      → observation_of c o ≡ true
      → Reads host.observations (run_path run_id "provider-observation.json") o s
      → receipt_of c r ≡ true
      → Reads host.receipts (run_path run_id "terminal-receipt.json") r s
      → inspect_run host disk run_id s
        ≡ (ok (record { claim = c; observation = some o; receipt = some r; state = r.status }), s)
  unfolding inspect_run read_observation read_receipt
  inspect_run-Reads run_id c o r s readable canonical claim_read valid own observation_read mine
        receipt_read =
      rw (
        read_claim-Reads run_id c s readable canonical claim_read valid,
        read_own-Reads host.observations disk _ _ _ o s readable observation_read own,
        read_own-Reads host.receipts disk _ _ _ r s readable receipt_read mine,
      )
