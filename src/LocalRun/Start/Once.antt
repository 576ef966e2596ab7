-- ===== src/LocalRun/Start/Once.antt =====
-- A WorkSpec is launched once.
use goalrail.LocalRun.Life.{Reach, Reach-Extends}
use goalrail.LocalRun.Retained.{ready_run-Grows, new_claim-Grows, record_launch-Grows}
use goalrail.Base.{refl, Option, none, some, ◌≡◌, arith, String, subst, ◌∙◌, sym, ◌≢◌}
use goalrail.LocalRun.Action.{
  Files, Result, ok, err, RunError, launch_already_claimed, >>=-eq-ok, Action, if_exists-eq-ok,
  if_exists-err, >>=-err, ◌>>◌, ◌>>=◌,
}
use goalrail.LocalRun.Types.{LaunchClaim}
use goalrail.LocalRun.Store.{write_json_once, prepared_path}
use goalrail.LocalRun.Store.Once.{
  Publications, Publications-Extends, Extends, Grows-ended, write_json_once-Grows, Extends-trans,
}
use goalrail.LocalRun.Store.Written.{Holds, write_json_once-Holds, write_json_once_taken}
use goalrail.LocalRun.Host.{Host, Adapter, StartCall}
use goalrail.LocalRun.Start.{
  make_claim, start, StartInput, StartResult, ready_run, new_claim, claim_work_spec, claim_run,
  PreparedRun, record_launch, launch_run,
}

module _ {Bytes : Type 0} (host : Host Bytes) where
  -- The file of the claim that a call makes first.
  abbrev pub IsClaimed : LaunchClaim → Files Bytes → Type 0
  IsClaimed claim s =
      Holds host.claims (prepared_path claim.work_spec_digest "launch-claim.json") claim s

  pub Holds-Extends :
      (claim : LaunchClaim) (s t : Files Bytes)
      → IsClaimed claim s
      → Extends s t
      → IsClaimed claim t
  Holds-Extends claim s t (key, e, f) g = (key, e, g key _ f)

  claim_work_spec-IsClaimed :
      (call : StartCall Bytes) (claim : LaunchClaim) (s t : Files Bytes)
      → claim_work_spec host call claim s ≡ (ok tt, t)
      → IsClaimed claim t
  unfolding claim_work_spec
  claim_work_spec-IsClaimed call claim s t h =
      let write : Action Bytes (Unit {0}) =
        write_json_once host.claims call.disk
          (prepared_path claim.work_spec_digest "launch-claim.json") claim in
      write_json_once-Holds host.claims _ call.disk claim s t
        (if_exists-eq-ok launch_already_claimed write s h)

  pub make_claim-IsClaimed :
      (call : StartCall Bytes) (claim : LaunchClaim) (s t : Files Bytes)
      → make_claim host call claim s ≡ (ok tt, t)
      → IsClaimed claim t
  unfolding make_claim claim_run
  make_claim-IsClaimed call claim s t h =
      let (_, u, wrote, rest) =
        >>=-eq-ok (claim_work_spec host call claim) (λ _. claim_run host call claim) s h in
      Holds-Extends claim u t (claim_work_spec-IsClaimed call claim s u wrote) (
        Grows-ended (claim_run host call claim) u
          (write_json_once-Grows host.claims call.disk _ claim) rest)

  claim_work_spec_taken :
      (call : StartCall Bytes) (a b : LaunchClaim) (s : Files Bytes)
      → IsClaimed a s
      → a.work_spec_digest ≡ b.work_spec_digest
      → (e : RunError) × (claim_work_spec host call b s ≡ (err e, s))
  unfolding claim_work_spec
  claim_work_spec_taken call a b s held same =
      let path : String = prepared_path b.work_spec_digest "launch-claim.json" in
      let there : Holds host.claims path a s =
        subst (λ d. Holds host.claims (prepared_path d "launch-claim.json") a s) same held in
      let (e, refused) = write_json_once_taken host.claims path call.disk a b s there in
      if_exists-err launch_already_claimed (write_json_once host.claims call.disk path b) s refused

  -- While the claim is there, no other claim of the WorkSpec succeeds, and nothing is written.
  pub make_claim_taken :
      (call : StartCall Bytes) (a b : LaunchClaim) (s : Files Bytes)
      → IsClaimed a s
      → a.work_spec_digest ≡ b.work_spec_digest
      → (e : RunError) × (make_claim host call b s ≡ (err e, s))
  unfolding make_claim
  make_claim_taken call a b s held same =
      let (e, refused) = claim_work_spec_taken call a b s held same in
      (e, >>=-err (claim_work_spec host call b) (λ _. claim_run host call b) s refused)

  -- The claim of a new run is of the WorkSpec that was asked for.
  new_claim-digest :
      (call : StartCall Bytes) (adapter : Adapter Bytes) (digest : String) (s t : Files Bytes)
      (claim : LaunchClaim)
      → new_claim host call adapter digest s ≡ (ok claim, t)
      → claim.work_spec_digest ≡ digest
  unfolding new_claim
  new_claim-digest call adapter digest s t claim h = ground arith

  -- What a `Start` that succeeded went through.
  pub start-eq-ok :
      (call : StartCall Bytes) (adapter : Option (Adapter Bytes)) (input : StartInput)
      (s t : Files Bytes) (result : StartResult)
      → start host call adapter input s ≡ (ok result, t)
      → (claim : LaunchClaim) × (u : Files Bytes) × (v : Files Bytes) × Extends s u
        × (claim.work_spec_digest ≡ input.work_spec_digest)
        × (make_claim host call claim u ≡ (ok tt, v))
        × Extends v t
  unfolding start
  start-eq-ok call none input s t result h = absurd (ground arith)
  start-eq-ok call (some adapter) input s t result h =
      let record_ : PreparedRun Bytes → LaunchClaim → Action Bytes StartResult = λ run claim.
        record_launch host call run claim
          (launch_run host call adapter input.arguments run claim) in
      let claimed : PreparedRun Bytes → LaunchClaim → Action Bytes StartResult =
        λ run claim. make_claim host call claim >> record_ run claim in
      let (run, s1, readied, h1) =
        >>=-eq-ok (ready_run host call adapter input)
          (λ run. new_claim host call adapter input.work_spec_digest >>= claimed run) s h in
      let (claim, u, named, h2) =
        >>=-eq-ok (new_claim host call adapter input.work_spec_digest) (claimed run) s1 h1 in
      let (_, v, made, h3) = >>=-eq-ok (make_claim host call claim) (λ _. record_ run claim) u h2 in
      (
        claim,
        u,
        v,
        Extends-trans s s1 u
            (Grows-ended (ready_run host call adapter input) s
              (ready_run-Grows host call adapter input) readied)
            (Grows-ended (new_claim host call adapter input.work_spec_digest) s1
              (new_claim-Grows host call adapter input.work_spec_digest) named),
        new_claim-digest call adapter input.work_spec_digest s1 u claim named,
        made,
        Grows-ended (record_ run claim) v (record_launch-Grows host call run claim _) h3,
      )

  -- Once a call of Start has written the claim of a WorkSpec, then after any further publications of
  -- any calls, its own and those in flight among them, in any order, the claim of another call on that
  -- WorkSpec, the step before its launch, ends with an error and writes nothing.
  pub make_claim_once :
      (call other : StartCall Bytes) (a b : LaunchClaim) (s t u : Files Bytes)
      → claim_work_spec host call a s ≡ (ok tt, t)
      → Publications t u
      → a.work_spec_digest ≡ b.work_spec_digest
      → (e : RunError) × (make_claim host other b u ≡ (err e, u))
  make_claim_once call other a b s t u written more same =
      make_claim_taken other a b u
        (Holds-Extends a t u (claim_work_spec-IsClaimed call a s t written)
          (Publications-Extends more))
        same

  start_not_again :
      (call other : StartCall Bytes) (adapter next : Option (Adapter Bytes))
      (input again : StartInput) (s t u v : Files Bytes) (first second : StartResult)
      → start host call adapter input s ≡ (ok first, t)
      → Reach host t u
      → input.work_spec_digest ≡ again.work_spec_digest
      → start host other next again u ≢ (ok second, v)
  start_not_again call other adapter next input again s t u v first second started reach same h =
      let (a, _, c, _, named, made, kept) = start-eq-ok call adapter input s t first started in
      let (b, d, e, moved, renamed_, made_again, _) = start-eq-ok other next again u v second h in
      let there : IsClaimed a d =
        Holds-Extends a c d (make_claim-IsClaimed call a _ c made)
          (Extends-trans c t d kept (Extends-trans t u d (Reach-Extends host reach) moved)) in
      let (x, refused) = make_claim_taken other a b d there (named ∙ same ∙ sym renamed_) in
      absurd (ok_ne_err (sym made_again ∙ refused))
    where
      ok_ne_err :
          {x : RunError} {p q : Files Bytes}
          → ◌≡◌ {A = Result (Unit {0}) × Files Bytes} (ok tt, p) (err x, q)
          → ⊥
      ok_ne_err h = cc

  -- After a Start that succeeded, and any further calls of the service, every Start of the same
  -- WorkSpec ends with an error, whichever adapter it has and whatever the outside answers.
  pub start_once :
      (call other : StartCall Bytes) (adapter next : Option (Adapter Bytes))
      (input again : StartInput) (s t u : Files Bytes) (first : StartResult)
      → start host call adapter input s ≡ (ok first, t)
      → Reach host t u
      → input.work_spec_digest ≡ again.work_spec_digest
      → (e : RunError) × (v : Files Bytes) × (start host other next again u ≡ (err e, v))
  start_once call other adapter next input again s t u first started reach same =
      ended (start host other next again u) refl
    where
      ended :
          (p : Result StartResult × Files Bytes)
          → start host other next again u ≡ p
          → (e : RunError) × (v : Files Bytes) × (p ≡ (err e, v))
      ended (ok second, v) e = absurd (
          start_not_again call other adapter next input again s t u v first second started reach
            same e)
      ended (err x, v) e = (x, v, refl)
