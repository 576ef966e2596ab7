-- ===== src/LocalRun/Inspect/Opens.antt =====
-- A prepared run is opened under the digest that was asked for.
use goalrail.Base.{Option, none, some, ◌≡◌, ap, ◌∙◌, sym, not, ◌&&◌, ◌==◌}
use goalrail.Domain.{
  WorkSpecDigest, FrozenWorkSpec, open_frozen_work_spec, open_frozen_work_spec-digest,
  is_hex_digest,
}
use goalrail.LocalRun.Types.{LaunchClaim, Preparation, RunState}
use goalrail.LocalRun.Action.{
  Files, ok, Action, >>=-eq-ok, guarded-eq-ok, or_raise-eq-ok, pure-eq-ok, optional, or_raise,
  raise_if, pure, ◌>>◌, ◌>>=◌, failed_with,
}
use goalrail.LocalRun.Store.{Disk, read_bytes, read_json, prepared_path}
use goalrail.LocalRun.Host.{Host}
use goalrail.LocalRun.Validate.{validate_launch_claim}
use goalrail.LocalRun.Inspect.{
  PreparedRun, inspect_prepared, with_claim, claimed_state, is_prepared,
}

module _ {Bytes : Type 0} (host : Host Bytes) (disk : Disk) where
  with_claim-work_spec :
      (digest : WorkSpecDigest) (frozen : FrozenWorkSpec Bytes) (p : Preparation)
      (claim : Option LaunchClaim) (run : PreparedRun Bytes) (s t : Files Bytes)
      → with_claim host disk digest frozen p claim s ≡ (ok run, t)
      → run.work_spec ≡ frozen
  unfolding with_claim
  with_claim-work_spec digest frozen p none run s t h =
      ap (λ x. x.work_spec) (sym (pure-eq-ok _ run s t h).0)
  with_claim-work_spec digest frozen p (some claim) run s t h =
      let view : RunState → PreparedRun Bytes =
        λ x. record { work_spec = frozen; preparation = p; claim = some claim; state = x } in
      let (_, h0) =
        guarded-eq-ok (not (validate_launch_claim claim && claim.work_spec_digest == digest))
          (failed_with "invalid stored launch claim")
          (claimed_state host disk claim >>= λ x. pure (view x)) s h in
      let (x, u, _, h1) = >>=-eq-ok (claimed_state host disk claim) (λ x. pure (view x)) s h0 in
      ap (λ x. x.work_spec) (sym (pure-eq-ok (view x) run u t h1).0)

  pub inspect_prepared-digest :
      (digest : WorkSpecDigest) (run : PreparedRun Bytes) (s t : Files Bytes)
      → inspect_prepared host disk digest s ≡ (ok run, t)
      → run.work_spec.digest ≡ digest
  unfolding inspect_prepared
  inspect_prepared-digest digest run s t h =
      let claimed : FrozenWorkSpec Bytes → Preparation → Action Bytes (PreparedRun Bytes) = λ f p.
        optional (read_json host.claims disk (prepared_path digest "launch-claim.json"))
        >>= with_claim host disk digest f p in
      let checked : FrozenWorkSpec Bytes → Preparation → Action Bytes (PreparedRun Bytes) = λ f p.
        raise_if (not (p.work_spec_digest == digest && is_prepared p.state))
          (failed_with "invalid preparation state")
        >> claimed f p in
      let opened : FrozenWorkSpec Bytes → Action Bytes (PreparedRun Bytes) = λ f.
        read_json host.preparations disk (prepared_path digest "preparation.json") >>= checked f in
      let (_, h0) =
        guarded-eq-ok (not (is_hex_digest digest)) (failed_with "invalid WorkSpec digest")
          (read_bytes disk (prepared_path digest "work-spec.json") >>= λ c.
            or_raise (failed_with "open WorkSpec") (open_frozen_work_spec host.specs c digest)
            >>= opened)
          s h in
      let (c, s1, _, h1) =
        >>=-eq-ok (read_bytes disk (prepared_path digest "work-spec.json"))
          (λ c.
            or_raise (failed_with "open WorkSpec") (open_frozen_work_spec host.specs c digest)
            >>= opened)
          s h0 in
      let (f, s2, got, h2) =
        >>=-eq-ok
          (or_raise (failed_with "open WorkSpec") (open_frozen_work_spec host.specs c digest))
          opened s1 h1 in
      let (p, s3, _, h3) =
        >>=-eq-ok (read_json host.preparations disk (prepared_path digest "preparation.json"))
          (checked f) s2 h2 in
      let (_, h4) =
        guarded-eq-ok (not (p.work_spec_digest == digest && is_prepared p.state))
          (failed_with "invalid preparation state") (claimed f p) s3 h3 in
      let (l, s4, _, h5) =
        >>=-eq-ok (optional (read_json host.claims disk (prepared_path digest "launch-claim.json")))
          (with_claim host disk digest f p) s3 h4 in
      let same : run.work_spec ≡ f = with_claim-work_spec digest f p l run s4 t h5 in
      ap (λ x. x.digest) same
      ∙ open_frozen_work_spec-digest host.specs c digest f
          (or_raise-eq-ok (failed_with "open WorkSpec") (open_frozen_work_spec host.specs c digest)
            s1 got).0
