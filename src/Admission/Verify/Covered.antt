-- ===== src/Admission/Verify/Covered.antt =====
-- From the policy to the lineage: what an allowed result says of every material path.
use goalrail.Base.{
  sym, ◌∙◌, subst, true, List, some, none, ◌≡◌, Elem, arith, contains, ◌||◌, String, ◌⊎◌,
}
use goalrail.Domain.{
  Codec, AdmissionResult, AdmissionOutcome, LineageEvent, ContentAddressedEvidenceReference,
  AdmissionPacket, Sha256Digest,
}
use goalrail.Admission.Types.{Input, ChangedPath, WorkUnitGraph, pass}
use goalrail.Admission.Policy.{evaluate_policy}
use goalrail.Admission.Authority.{Authority, resolve_authority}
use goalrail.Admission.Binding.{verify_graph_binding, verify_commits, graph_commit_set_matches}
use goalrail.Admission.Binding.Commits.{IsLinked, graph_commit_set_matches-IsLinked}
use goalrail.Admission.Evidence.{trusted_without_packet}
use goalrail.Admission.Evidence.Trusted.{IsClaimed, verify_packet_evidence-IsClaimed}
use goalrail.Admission.Verify.Allowed.{verify-IsAllowed}
use goalrail.Admission.Verify.{verify}

verify_graph_binding-commits :
    (codec : Codec) (graph : WorkUnitGraph) (packet : AdmissionPacket) (commits : List String)
    (changes : List ChangedPath) (material_paths : List String) (d p : Sha256Digest)
    → verify_graph_binding codec graph packet commits changes material_paths d p ≡ none
    → (graph_commit_set_matches graph commits changes material_paths).0 ≡ true
unfolding verify_graph_binding verify_commits
verify_graph_binding-commits codec graph packet commits changes material_paths d p h = ground arith

pass_injective : (a b : Authority) → pass a ≡ pass b → a ≡ b
pass_injective a b h = ground arith

-- Under an allowed result, each commit of a change that names a path which the policy in force
-- finds material is a commit of the range that the work unit's lineage links.
pub verify-IsLinked :
    (codec : Codec) (input : Input) (r : AdmissionResult) (a : Authority) (change : ChangedPath)
    (commit : String)
    → verify codec input ≡ some r
    → r.outcome ≡ AdmissionOutcome.allow
    → resolve_authority codec input.frozen ≡ pass a
    → Elem change input.frozen.changes
    → (contains (evaluate_policy a.policy input.frozen.changes).material_paths change.path
        || contains
            (evaluate_policy a.policy input.frozen.changes).material_paths
            change.previous_path)
      ≡ true
    → Elem commit change.commits
    → IsLinked input.frozen.graph.events input.frozen.commits commit
verify-IsLinked codec input r a change commit v h resolved m t c =
    let allowance = verify-IsAllowed codec input r v h in
    let b = allowance.authority in
    let same : b ≡ a = pass_injective b a (sym allowance.resolved ∙ resolved) in
    let material =
      λ (x : Authority). (evaluate_policy x.policy input.frozen.changes).material_paths in
    let matched =
      verify_graph_binding-commits codec input.frozen.graph input.packet input.frozen.commits
        input.frozen.changes (material b) b.declaration_digest b.policy_digest
        allowance.grounds.bound in
    graph_commit_set_matches-IsLinked input.frozen.graph input.frozen.commits input.frozen.changes
      (material b) change commit matched m
      (subst
        (λ x.
          (contains (material x) change.path || contains (material x) change.previous_path) ≡ true)
        (sym same) t)
      c

-- Under an allowed result, every target of the work unit's lineage is trusted without the packet,
-- or the packet claims it as it is and an authenticated provider has observed it in time.
pub verify-IsClaimed :
    (codec : Codec) (input : Input) (r : AdmissionResult) (event : LineageEvent)
    (target : ContentAddressedEvidenceReference)
    → verify codec input ≡ some r
    → r.outcome ≡ AdmissionOutcome.allow
    → Elem event input.frozen.graph.events
    → Elem target event.targets
    → (trusted_without_packet target input.packet ≡ true) ⊎ IsClaimed input.packet target
verify-IsClaimed codec input r event target v h m m' =
    let allowance = verify-IsAllowed codec input r v h in
    verify_packet_evidence-IsClaimed codec input.frozen.graph input.packet event target
      allowance.grounds.evidenced m m'
