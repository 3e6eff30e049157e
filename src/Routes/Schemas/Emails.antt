-- ===== src/Routes/Schemas/Emails.antt =====
-- `POST /api/v1/users`: emails from api/schemas/schemas.py to database/store.py.
use expense_settlement_engin.Common.{
  ℕ, ◌≡◌, sym, ap, ◌∙◌, subst, inl, inr, true, false, some, String, Bool-cases, Option-cases,
}
use expense_settlement_engin.Common.Dict.{lookup, contains, insert, lookup-insert_self}
use expense_settlement_engin.Store.{UserRecord, InMemoryStore, email_taken}
use expense_settlement_engin.Store
use expense_settlement_engin.GroupService.Members.{EmailsDistinct, create_user-EmailsDistinct}
use expense_settlement_engin.ExpenseService.Service.{Engine}
use expense_settlement_engin.Routes.Responses.{
  responded, http_error, no_answer, UserResponse, fmt_user,
}
use expense_settlement_engin.Routes.Users.{create_user, get_user}
use expense_settlement_engin.Routes.Schemas.{
  Texts, has_at, fits_length, email_must_contain_at, post_user,
}

responded-injective : {A : Type 0} (x y : A) → responded x ≡ responded y → x ≡ y
responded-injective x y e =
    ap (λ h. elim h [ responded a ↦ a | http_error _ ↦ x | no_answer ↦ x ]) e

abbrev new_user : String → ℕ → String → String → UserRecord
new_user uuid now name email = record {
  id = uuid;
  name = name;
  email = email;
  version = 0;
  created_at = now;
}

stored_user :
    (uuid : String) (now : ℕ) (name email : String) (s : InMemoryStore)
    → email_taken email s.users ≡ false
    → Store.create_user uuid now name email s ≡ (
      some (new_user uuid now name email),
      record s { users = insert uuid (new_user uuid now name email) s.users },
    )
unfolding Store.create_user
stored_user uuid now name email s free = rw (free, Store.create_user)

get_user_found :
    (uuid : String) (e : Engine) (u : UserRecord)
    → lookup uuid e.store.users ≡ some u
    → get_user uuid e ≡ responded (fmt_user u)
unfolding get_user
get_user_found uuid e u found = rw (found, get_user)

created_found :
    (uuid : String) (now : ℕ) (name email : String) (e : Engine) (r : UserResponse)
    → (create_user uuid now name email e).0 ≡ responded r
    → (get_user uuid (create_user uuid now name email e).1 ≡ responded r)
      × (r.id ≡ uuid)
      × (r.email ≡ email)
unfolding create_user Store.create_user fmt_user
created_found uuid now name email e r answered =
    elim (Bool-cases (email_taken email e.store.users)) [
      | inl taken ↦ cc (rw (taken, Store.create_user, create_user) at answered)
      | inr free ↦
          let user = new_user uuid now name email in
          let made = stored_user uuid now name email e.store free in
          let same : fmt_user user ≡ r =
            responded-injective _ r (rw (free, Store.create_user, create_user) at answered) in
          let after : Engine = record e {
            store = record e.store { users = insert uuid user e.store.users };
          } in
          rw (ap (λ x. x.0) made, ap (λ x. x.1) made, create_user)
            (
              get_user_found uuid after user (lookup-insert_self uuid user e.store.users)
                  ∙ ap responded same,
              sym (ap (λ q. q.id) same),
              sym (ap (λ q. q.email) same),
            )
    ]

module _ (texts : Texts) where
  -- The email as the schema passes it on.
  abbrev pub normal : String → String
  normal v = texts.strip (texts.lower v)

  post_user_valid :
      (uuid : String) (now : ℕ) (name email : String) (e : Engine)
      → fits_length 1 255 name ≡ true
      → has_at email ≡ true
      → post_user texts uuid now name email e ≡ create_user uuid now name (normal email) e
  unfolding post_user email_must_contain_at
  post_user_valid uuid now name email e fits has = rw (fits, has, post_user)

  create_user-taken :
      (uuid : String) (now : ℕ) (name email : String) (e : Engine)
      → email_taken email e.store.users ≡ true
      → (create_user uuid now name email e).0 ≡ http_error 409
  unfolding create_user Store.create_user
  create_user-taken uuid now name email e taken = rw (taken, Store.create_user, create_user)

  create_user-store :
      (uuid : String) (now : ℕ) (name email : String) (e : Engine)
      → (create_user uuid now name email e).1.store
        ≡ (Store.create_user uuid now name email e.store).1
  unfolding create_user
  create_user-store uuid now name email e =
      elim (Option-cases (Store.create_user uuid now name email e.store).0) [
        | inl taken ↦ rw (taken, create_user)
        | inr (u, made) ↦ rw (made, create_user)
      ]

  -- Two sign-ups whose emails the schema makes the same, as `Ann@x.org ` and `ann@x.org`, with valid
  -- names and emails, the first with an id that is not in use: the second is always answered with
  -- 409, and still no email belongs to two users.
  pub second_signup_conflicts :
      (uuid uuid' : String) (now now' : ℕ) (name name' email email' : String) (e : Engine)
      → fits_length 1 255 name ≡ true
      → fits_length 1 255 name' ≡ true
      → has_at email ≡ true
      → has_at email' ≡ true
      → normal email ≡ normal email'
      → contains uuid e.store.users ≡ false
      → EmailsDistinct e.store.users
      → let after = (post_user texts uuid now name email e).1 in
        ((post_user texts uuid' now' name' email' after).0 ≡ http_error 409)
        × EmailsDistinct after.store.users
  second_signup_conflicts uuid uuid' now now' name name' email email' e fits fits' has has' same
        free distinct =
      let after = (create_user uuid now name (normal email) e).1 in
      let stored = create_user-store uuid now name (normal email) e in
      let kept = create_user-EmailsDistinct uuid now name (normal email) e.store free distinct in
      let taken : email_taken (normal email') after.store.users ≡ true =
        ap (λ v. email_taken v after.store.users) (sym same)
        ∙ ap (λ s. email_taken (normal email) s.users) stored
        ∙ kept.0 in
      rw
        (
          post_user_valid uuid now name email e fits has,
          post_user_valid uuid' now' name' email' after fits' has',
        )
        (
          create_user-taken uuid' now' name' (normal email') after taken,
          subst (λ s. EmailsDistinct s.users) (sym stored) kept.1,
        )

  -- The response to a sign-up that succeeds is the one that `get_user` gives on its id afterwards,
  -- with the email as the schema passes it on.
  pub signup_found :
      (uuid : String) (now : ℕ) (name email : String) (e : Engine) (r : UserResponse)
      → (post_user texts uuid now name email e).0 ≡ responded r
      → (get_user uuid (post_user texts uuid now name email e).1 ≡ responded r)
        × (r.id ≡ uuid)
        × (r.email ≡ normal email)
  unfolding post_user email_must_contain_at
  signup_found uuid now name email e r answered = elim (Bool-cases (fits_length 1 255 name)) [
    | inr bad ↦ cc (rw (bad, post_user) at answered)
    | inl fits ↦ elim (Bool-cases (has_at email)) [
      | inr bad ↦ cc (rw (fits, bad, post_user) at answered)
      | inl has ↦
          let valid = post_user_valid uuid now name email e fits has in
          rw valid
            (created_found uuid now name (normal email) e r (sym (ap (λ a. a.0) valid) ∙ answered))
    ]
  ]
