-- ===== src/Rbac/Rights.antt =====
-- Who may do what.
use kontur.Prelude.{
  ◌≡◌, refl, sym, inl, inr, true, false, not, ◌||◌, none, some, String, eq_iff, List, [], ◌∷◌,
  is_empty, any, select, All, ok, err, is_ok, >>=-eq-ok, ◌==◌, elem, Bool-cases, Option-cases,
  arith,
}
use kontur.Prelude.{String_eq, Result-cases}
use mathlib.Core.Path.{subst}
use kontur.Prelude.Dict.{lookup}
use kontur.Rbac.{
  Role, inspector, supervisor, admin, role_value, role_of, same_role, required_roles,
  legal_decision_operations, roles_for, recognized, authorize,
}

All-elem : (P : String → Type 0) (k : String) (ks : List String) → All P ks → elem k ks ≡ true → P k
All-elem P k [] h is_in = cc
All-elem P k (j ∷ js) h is_in = elim (Bool-cases (k == j)) [
  | inl e ↦ let same : k ≡ j = ground (arith, e, eq_iff k j) in subst P (sym same) h.0
  | inr e ↦ All-elem P k js h.1 (ground (arith, is_in, e))
]

abbrev Named : Role → String → Type 0
Named r s = elim (role_of s) [ none ↦ false | some q ↦ same_role r q ] ≡ (role_value r == s)

Named-inspector : (r : Role) → Named r "INSPECTOR"
Named-inspector inspector = refl
Named-inspector supervisor = refl
Named-inspector admin = refl

Named-supervisor : (r : Role) → Named r "SUPERVISOR"
Named-supervisor inspector = refl
Named-supervisor supervisor = refl
Named-supervisor admin = refl

-- A text is recognized as the role that it names.
role_of_lem : (r : Role) (s : String) → Named r s
role_of_lem r s = elim (Bool-cases (s == "INSPECTOR")) [
  | inl e ↦
      let same : s ≡ "INSPECTOR" = ground (arith, e, eq_iff s "INSPECTOR") in
      subst (Named r) (sym same) (Named-inspector r)
  | inr e ↦ elim (Bool-cases (s == "SUPERVISOR")) [
    | inl e' ↦
        let same : s ≡ "SUPERVISOR" = ground (arith, e', eq_iff s "SUPERVISOR") in
        subst (Named r) (sym same) (Named-supervisor r)
    | inr e' ↦ ground (
      arith,
      e,
      e',
      eq_iff s "INSPECTOR",
      eq_iff s "SUPERVISOR",
      eq_iff s "ADMIN",
      eq_iff "INSPECTOR" s,
      eq_iff "SUPERVISOR" s,
      eq_iff "ADMIN" s,
    )
  ]
]

-- The roles that are recognized are those whose texts were presented.
any-recognized :
    (r : Role) (roles : List String)
    → any (same_role r) (recognized roles) ≡ elem (role_value r) roles
any-recognized r [] = refl
any-recognized r (s ∷ ss) = elim (Option-cases (role_of s)) [
  | inl e ↦ rw (e, recognized) (ground (arith, any-recognized r ss, role_of_lem r s, e))
  | inr (q, e) ↦ rw (e, recognized) (ground (arith, any-recognized r ss, role_of_lem r s, e))
]

is_empty-select :
    (roles : List String) (allowed : List Role)
    → is_empty (select (λ r. any (same_role r) (recognized roles)) allowed)
      ≡ not (any (λ r. elem (role_value r) roles) allowed)
is_empty-select roles [] = refl
is_empty-select roles (r ∷ rs) = ground (arith, is_empty-select roles rs, any-recognized r roles)

any-false : (allowed : List Role) → any (λ r. elem (role_value r) []) allowed ≡ false
any-false [] = refl
any-false (r ∷ rs) = any-false rs

-- An operation is allowed exactly if the matrix names it and one of the presented texts is the name of
-- a role that it lists: an unknown operation, an unknown role and no role at all give no right.
pub authorize_ok_iff :
    (operation_id : String) (roles : List String)
    → is_ok (authorize operation_id roles) ≡ elim (roles_for operation_id) [
      | err _ ↦ false
      | ok allowed ↦ any (λ r. elem (role_value r) roles) allowed
    ]
unfolding authorize
authorize_ok_iff operation_id [] = elim (Result-cases (roles_for operation_id)) [
  | inl (allowed, e) ↦ rw e (sym (any-false allowed))
  | inr (error, e) ↦ rw e refl
]
authorize_ok_iff operation_id (s ∷ ss) = elim (Result-cases (roles_for operation_id)) [
  | inl (allowed, e) ↦ rw e (ground (arith, is_empty-select (s ∷ ss) allowed))
  | inr (error, e) ↦ rw e refl
]

legal_roles : All (λ op. roles_for op ≡ ok (inspector ∷ supervisor ∷ [])) legal_decision_operations
unfolding roles_for lookup
legal_roles = (refl, (refl, (refl, (refl, tt))))

-- A decision of legal weight is allowed exactly to those who present themselves as an inspector or a
-- supervisor; an administrator alone takes none.
pub legal_decisions_are_of_inspectors :
    (operation_id : String) (roles : List String)
    → elem operation_id legal_decision_operations ≡ true
    → is_ok (authorize operation_id roles) ≡ (elem "INSPECTOR" roles || elem "SUPERVISOR" roles)
legal_decisions_are_of_inspectors operation_id roles is_legal =
    let at_roles =
      All-elem (λ op. roles_for op ≡ ok (inspector ∷ supervisor ∷ [])) operation_id
        legal_decision_operations legal_roles is_legal in
    ground (arith, authorize_ok_iff operation_id roles, at_roles)

-- What is granted was presented, and the matrix lists it.
authorize-grants :
    (operation_id : String) (roles : List String) {granted : List Role}
    → authorize operation_id roles ≡ ok granted
    → All (λ r. elem (role_value r) roles ≡ true) granted
unfolding authorize
authorize-grants operation_id roles {granted} h =
    let (allowed, e, h') = >>=-eq-ok (roles_for operation_id) _ h in
    let at_granted : select (λ r. any (same_role r) (recognized roles)) allowed ≡ granted =
      ground (arith, h') in
    subst (All (λ r. elem (role_value r) roles ≡ true)) at_granted (presented roles allowed)
  where
    presented :
        (roles : List String) (allowed : List Role)
        → All
            (λ r. elem (role_value r) roles ≡ true)
            (select (λ r. any (same_role r) (recognized roles)) allowed)
    presented roles [] = tt
    presented roles (r ∷ rs) = ground (arith, presented roles rs, any-recognized r roles)

-- The matrix lists no operation without a role.
roles_are_named : All (λ row. is_empty row.1 ≡ false) required_roles
roles_are_named = ground arith
