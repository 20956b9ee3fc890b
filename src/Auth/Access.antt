-- ===== src/Auth/Access.antt =====
-- Whom `authHelper` of middleware/auth.go admits.
use veloera.Base.{
  String, true, false, not, ◌≡◌, refl, sym, ap, ◌∙◌, ◌⊎◌, inl, inr, if◌then◌else◌, Option, none,
  some, ℤ, ◌≤ℤ◌, ltb_ℤ, eqb_ℤ, arith, Bool-cases, Option-cases,
}
use text.Mathlib.Text.{◌==◌ as str_eq}
use veloera.Auth.Session.{
  Identity, AuthRequest, AccessUser, AuthResult, admitted, refused, Strings, user_status_disabled,
  user_mismatch, bad_user_header, valid_user_info, check_role, check_asserted, same_id,
  check_identity, access_identity, check_access_token, validate_access_token, auth_helper,
}

-- The identity may do what the minimal role may.
pub record IsAuthorised (strings : Strings) (min_role : ℤ) (header : String) (i : Identity)
    : Type 0 where
  pub role : ℤ
  pub has_role : i.role ≡ some role
  pub suffices : min_role ≤ℤ role
  pub is_valid : valid_user_info strings i.username role ≡ true
  pub status : ℤ
  pub has_status : i.status ≡ some status
  pub not_banned : eqb_ℤ status user_status_disabled ≡ false
  pub id : ℤ
  pub has_id : i.id ≡ some id
  pub asked_for : strings.atoi header ≡ some id

-- The identity is the session's, or without a session that of the access token's user.
abbrev pub IsIdentity :
    (strings : Strings) (find_user : String → Option AccessUser) → AuthRequest → Identity → Type 0
IsIdentity strings find_user r i =
    ((r.session_username ≡ some i.username)
      × (i.role ≡ r.session_role)
      × (i.id ≡ r.session_id)
      × (i.status ≡ r.session_status)
      × (i.use_access_token ≡ false))
    ⊎ ((r.session_username ≡ none)
        × ((u : AccessUser) × (validate_access_token strings find_user r.authorization ≡ some u)
            × (i ≡ access_identity strings u)))

not_above : (min role : ℤ) → ltb_ℤ role min ≡ false → min ≤ℤ role
not_above min role h = ground arith

equal : (a b : ℤ) → eqb_ℤ a b ≡ true → a ≡ b
equal a b h = ground arith

module _ (strings : Strings) (min_role : ℤ) where
  check_role-admits :
      (i j : Identity) (status role : ℤ)
      → check_role strings min_role i status role ≡ admitted j
      → (i ≡ j)
        × (eqb_ℤ status user_status_disabled ≡ false)
        × (ltb_ℤ role min_role ≡ false)
        × (valid_user_info strings i.username role ≡ true)
  unfolding check_role
  check_role-admits i j status role e = ground arith

  check_asserted-admits :
      (i j : Identity) (status role : Option ℤ)
      → check_asserted strings min_role i status role ≡ admitted j
      → (s : ℤ) × (r : ℤ) × (status ≡ some s)
        × (role ≡ some r)
        × (i ≡ j)
        × (eqb_ℤ s user_status_disabled ≡ false)
        × (ltb_ℤ r min_role ≡ false)
        × (valid_user_info strings i.username r ≡ true)
  unfolding check_asserted
  check_asserted-admits i j none role e = cc
  check_asserted-admits i j (some s) none e = elim (Bool-cases (eqb_ℤ s user_status_disabled)) [
    | inl banned ↦ ground arith
    | inr free ↦ ground arith
  ]
  check_asserted-admits i j (some s) (some r) e =
      let (a, b, c, f) = check_role-admits i j s r e in (s, r, refl, refl, a, b, c, f)

  -- The test of the id and what follows it.
  id-admits :
      (i j : Identity) (id : Option ℤ) (n : ℤ) (rest : AuthResult)
      → (if not (same_id strings id n) then refused user_mismatch else rest) ≡ admitted j
      → (id ≡ some n) × (rest ≡ admitted j)
  unfolding same_id
  id-admits i j none n rest e = cc
  id-admits i j (some id) n rest e = elim (Bool-cases (eqb_ℤ id n)) [
    | inl same ↦ (ap some (equal id n same), sym (rw same) ∙ e)
    | inr other ↦ ground arith
  ]

  number-admits :
      (i j : Identity) (o : Option ℤ)
      → (elim o as (λ _. AuthResult) [
        | none ↦ refused bad_user_header
        | some n ↦
            if not (same_id strings i.id n)
            then refused user_mismatch
            else check_asserted strings min_role i i.status i.role
      ])
        ≡ admitted j
      → (n : ℤ) × (o ≡ some n)
        × (i.id ≡ some n)
        × (check_asserted strings min_role i i.status i.role ≡ admitted j)
  number-admits i j none e = cc
  number-admits i j (some n) e =
      let (a, b) = id-admits i j i.id n (check_asserted strings min_role i i.status i.role) e in
      (n, refl, a, b)

  check_identity-admits :
      (i j : Identity) (header : String)
      → check_identity strings min_role i header ≡ admitted j
      → (i ≡ j) × IsAuthorised strings min_role header i
  unfolding check_identity
  check_identity-admits i j header e = elim (Bool-cases (str_eq header "")) [
    | inl empty ↦ ground arith
    | inr given ↦
        let (n, asked, has, rest) = number-admits i j (strings.atoi header) (sym (rw given) ∙ e) in
        let (s, r, has_status, has_role, same, free, enough, valid) =
          check_asserted-admits i j i.status i.role rest in
        (
          same,
          record {
            role = r;
            has_role = has_role;
            suffices = not_above min_role r enough;
            is_valid = valid;
            status = s;
            has_status = has_status;
            not_banned = free;
            id = n;
            has_id = has;
            asked_for = asked;
          },
        )
  ]

  token-admits :
      (o : Option AccessUser) (j : Identity) (header : String)
      → check_access_token strings min_role o header ≡ admitted j
      → (u : AccessUser) × (o ≡ some u)
        × (access_identity strings u ≡ j)
        × IsAuthorised strings min_role header (access_identity strings u)
  unfolding check_access_token
  token-admits none j header e = cc
  token-admits (some u) j header e = elim (Bool-cases (str_eq u.username "")) [
    | inl empty ↦ ground arith
    | inr named ↦ elim (Bool-cases (valid_user_info strings u.username u.role)) [
      | inr bad ↦ ground arith
      | inl good ↦
          let (a, b) =
            check_identity-admits (access_identity strings u) j header
              (sym (rw (named, good)) ∙ e) in
          (u, refl, a, b)
    ]
  ]

  -- `authHelper` admits nobody but the user of the session, or without a session the user of the
  -- access token: one with a valid name and a role that is valid and at least the one asked for,
  -- who is not banned, and whose id the request's header names.
  pub auth_helper-admits :
      (find_user : String → Option AccessUser) (r : AuthRequest) (i : Identity)
      → auth_helper strings find_user min_role r ≡ admitted i
      → IsAuthorised strings min_role r.veloera_user i × IsIdentity strings find_user r i
  unfolding auth_helper
  auth_helper-admits find_user r i e = elim (Option-cases r.session_username) [
    | inr (name, session) ↦
        let j : Identity = record {
          username = name;
          role = r.session_role;
          id = r.session_id;
          status = r.session_status;
          use_access_token = false;
        } in
        let (same, granted) = check_identity-admits j i r.veloera_user (sym (rw session) ∙ e) in
        (
          rw⁻¹ same granted,
          inl (
            session ∙ ap (λ (k : Identity). some k.username) same,
            sym (ap (λ (k : Identity). k.role) same),
            sym (ap (λ (k : Identity). k.id) same),
            sym (ap (λ (k : Identity). k.status) same),
            sym (ap (λ (k : Identity). k.use_access_token) same),
          ),
        )
    | inl absent ↦ elim (Bool-cases (str_eq r.authorization "")) [
      | inl empty ↦ ground arith
      | inr given ↦
          let (u, found, same, granted) =
            token-admits (validate_access_token strings find_user r.authorization) i r.veloera_user
              (sym (rw (absent, given)) ∙ e) in
          (rw⁻¹ same granted, inr (absent, (u, found, sym same)))
    ]
  ]
