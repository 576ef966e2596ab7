-- ===== src/Admission/Authority/Governs.antt =====
-- Whose declaration and policy `resolveAuthority` puts in force.
use goalrail.Base.{
  subst, ◌∙◌, true, false, none, some, ◌≡◌, ◌⊎◌, inl, inr, arith, eq_iff, Option-cases, refl,
  Option, String,
}
use goalrail.Domain.{Codec, ProjectDeclaration, ProjectPolicy}
use goalrail.Admission.Types.{FrozenRange, pass}
use goalrail.Admission.Authority.{
  Authority, resolve_authority, base_authority, governed, valid_governance,
}

module _ (codec : Codec) (frozen : FrozenRange) where
  -- The head governs where the base has no declaration.
  pub record HeadGoverns (a : Authority) : Type 0 where
    pub bootstrap : a.bootstrap ≡ true
    pub absent : frozen.base_declaration ≡ none
    pub declared : frozen.head_declaration ≡ some a.declaration
    pub policed : frozen.head_policy ≡ some a.policy
    pub declared_digest : a.declaration_digest ≡ frozen.head_declaration_digest
    pub policed_digest : a.policy_digest ≡ frozen.head_policy_digest

  -- The base governs, and the head keeps its project identifier.
  pub record BaseGoverns (a : Authority) : Type 0 where
    pub ordinary : a.bootstrap ≡ false
    pub declared : frozen.base_declaration ≡ some a.declaration
    pub policed : frozen.base_policy ≡ some a.policy
    pub declared_digest : a.declaration_digest ≡ frozen.base_declaration_digest
    pub policed_digest : a.policy_digest ≡ frozen.base_policy_digest
    pub head : ProjectDeclaration
    pub head_declared : frozen.head_declaration ≡ some head
    pub same_project : head.project_id ≡ a.declaration.project_id

  abbrev pub IsGoverning : Authority → Type 0
  IsGoverning a =
      (valid_governance codec a.declaration a.declaration_digest a.policy a.policy_digest ≡ true)
      × (HeadGoverns a ⊎ BaseGoverns a)

  governed-eq-some :
      (od : Option ProjectDeclaration) (dd : String) (op : Option ProjectPolicy) (pd : String)
      (d : ProjectDeclaration) (p : ProjectPolicy)
      → governed codec od dd op pd ≡ some (d, p)
      → (od ≡ some d) × (op ≡ some p) × (valid_governance codec d dd p pd ≡ true)
  unfolding governed
  governed-eq-some none dd op pd d p h = cc
  governed-eq-some (some d') dd none pd d p h = cc
  governed-eq-some (some d') dd (some p') pd d p h = ground arith

  base_authority-IsGoverning :
      (a : Authority) (head : ProjectDeclaration) (head_policy : ProjectPolicy)
      → frozen.head_declaration ≡ some head
      → frozen.head_policy ≡ some head_policy
      → valid_governance codec head frozen.head_declaration_digest head_policy
          frozen.head_policy_digest
        ≡ true
      → (base : Option ProjectDeclaration) → frozen.base_declaration ≡ base
      → base_authority codec frozen head head_policy base ≡ pass a
      → IsGoverning a
  unfolding base_authority
  base_authority-IsGoverning a head head_policy d p ok none absent h =
      let found : Authority = record {
        declaration = head;
        declaration_digest = frozen.head_declaration_digest;
        policy = head_policy;
        policy_digest = frozen.head_policy_digest;
        bootstrap = true;
      } in
      let same : found ≡ a = ground arith in
      subst IsGoverning same (
        ok,
        inl (record {
          bootstrap = refl;
          absent = absent;
          declared = d;
          policed = p;
          declared_digest = refl;
          policed_digest = refl;
        }),
      )
  base_authority-IsGoverning a head head_policy d p ok (some base) e h =
      elim (Option-cases (
        governed codec (some base) frozen.base_declaration_digest frozen.base_policy
          frozen.base_policy_digest)) [
            | inl f ↦ absurd (ground arith)
            | inr ((base', base_policy), f) ↦
                let (declared, policed, valid) =
                  governed-eq-some (some base) frozen.base_declaration_digest frozen.base_policy
                    frozen.base_policy_digest base' base_policy f in
                let found : Authority = record {
                  declaration = base';
                  declaration_digest = frozen.base_declaration_digest;
                  policy = base_policy;
                  policy_digest = frozen.base_policy_digest;
                  bootstrap = false;
                } in
                let same : found ≡ a = ground arith in
                subst IsGoverning same (
                  valid,
                  inr (record {
                    ordinary = refl;
                    declared = e ∙ declared;
                    policed = policed;
                    declared_digest = refl;
                    policed_digest = refl;
                    head = head;
                    head_declared = d;
                    same_project = ground (arith, eq_iff head.project_id base'.project_id);
                  }),
                )
          ]

-- An authority is that of a declaration and a policy that are valid together. Where the base has a
-- declaration, they are the base's, whatever the head declares, and the head keeps the project's
-- identifier; the head's own are in force, as a bootstrap, only where the base has none.
pub resolve_authority-IsGoverning :
    (codec : Codec) (frozen : FrozenRange) (a : Authority)
    → resolve_authority codec frozen ≡ pass a
    → IsGoverning codec frozen a
unfolding resolve_authority
resolve_authority-IsGoverning codec frozen a h =
    elim (Option-cases (
      governed codec frozen.head_declaration frozen.head_declaration_digest frozen.head_policy
        frozen.head_policy_digest)) [
          | inl e ↦ absurd (ground arith)
          | inr ((head, head_policy), e) ↦
              let (declared, policed, ok) =
                governed-eq-some codec frozen _ _ _ _ head head_policy e in
              base_authority-IsGoverning codec frozen a head head_policy declared policed ok
                frozen.base_declaration refl (ground arith)
        ]
