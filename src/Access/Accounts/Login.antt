-- ===== src/Access/Accounts/Login.antt =====
-- A session from the registration to the logout.
use mathlib.Core.Path.{subst}
use sightpane.Prelude.{
  ℕ, ◌+◌, ◌≤◌, ◌<◌, ◌≡◌, refl, sym, Bool, true, false, not, Option, none, some, List, [], ◌∷◌, ◌++◌,
  inl, inr, arith, Bool-cases, All, find, keep, ltb,
}
use sightpane.Prelude.Text.{Text, codes, text_eq_refl, contains, trim_space}
use sightpane.Prelude.Base64.{IsByte}
use sightpane.Access.{AccessLib, User, AuthToken, AccessDb, not_found, done, failed, normal}
use sightpane.Access.Password.{
  hash_password, verify_password, KeyIsBytes, verify_password-hash_password,
}
use sightpane.Access.Accounts.{
  min_password, token_ttl, utf8_length, has_email, has_id, has_hash, create_user, insert_hashed,
  insert_user, login, login_found, with_token, user_by_email, user_by_id, or_not_found, issue_token,
  insert_token, user_by_token, user_of_token, revoke_token,
}

module _ {A : Type 0} (p : A → Bool) where
  find-snoc : (xs : List A) (x : A) → find p xs ≡ none → p x ≡ true → find p (xs ++ x ∷ []) ≡ some x
  unfolding find
  find-snoc [] x h t = rw t refl
  find-snoc (y ∷ xs) x h t = elim (Bool-cases (p y)) [
    | inl e ↦ absurd (ground arith)
    | inr e ↦ rw e (find-snoc xs x (rw e at h) t)
  ]

  pub find-keep-not : (xs : List A) → find p (keep (λ x. not (p x)) xs) ≡ none
  unfolding find keep
  find-keep-not [] = refl
  find-keep-not (x ∷ xs) = elim (Bool-cases (p x)) [
    | inl e ↦ rw e (find-keep-not xs)
    | inr e ↦ rw (e, e) (find-keep-not xs)
  ]

find_fresh : (next : ℕ) (us : List User) → All (λ v. v.id < next) us → find (has_id next) us ≡ none
unfolding find has_id
find_fresh next [] h = refl
find_fresh next (v ∷ us) (h, hs) = ground (arith, find_fresh next us hs)

-- The row that a registration inserts.
abbrev row : Text → Text → Text → ℕ → User
row email name hash id = record {
  id = id;
  email = email;
  name = name;
  locale = [];
  password_hash = hash;
}

record Created (lib : AccessLib) (email name pw : Text) (salt : List ℕ) (db db1 : AccessDb)
    (u : User) : Type 0 where
  hash : Text
  hashed : hash_password lib pw salt ≡ some hash
  unused : find (has_email (normal lib email)) db.users ≡ none
  inserted : u ≡ row (normal lib email) (trim_space name) hash db.next_user
  stored : db1 ≡ record db { users = db.users ++ u ∷ []; next_user = db.next_user + 1 }

module _ (lib : AccessLib) (email name pw : Text) (salt : List ℕ) (db db1 : AccessDb)
    (u : User) where
  insert_user-Created :
      (hash : Text) (o : Option User)
      → hash_password lib pw salt ≡ some hash
      → find (has_email (normal lib email)) db.users ≡ o
      → insert_user (normal lib email) (trim_space name) hash o db ≡ done (u, db1)
      → Created lib email name pw salt db db1 u
  unfolding insert_user
  insert_user-Created hash (some other) h f e = cc
  insert_user-Created hash none h f e = record {
    hash = hash;
    hashed = h;
    unused = f;
    inserted = cc;
    stored = cc;
  }

  insert_hashed-Created :
      (o : Option Text)
      → hash_password lib pw salt ≡ o
      → insert_hashed (normal lib email) (trim_space name) o db ≡ done (u, db1)
      → Created lib email name pw salt db db1 u
  unfolding insert_hashed
  insert_hashed-Created none h e = cc
  insert_hashed-Created (some hash) h e =
      insert_user-Created hash (find (has_email (normal lib email)) db.users) h refl e

  create_user-Created :
      create_user lib email name pw salt db ≡ done (u, db1)
      → Created lib email name pw salt db db1 u
  unfolding create_user
  create_user-Created e = elim (Bool-cases (contains (normal lib email) (codes "@"))) [
    | inr k ↦ absurd (ground arith)
    | inl k ↦ elim (Bool-cases (ltb (utf8_length pw) min_password)) [
      | inl short ↦ absurd (ground arith)
      | inr long ↦ insert_hashed-Created (hash_password lib pw salt) refl (rw (k, long) at e)
    ]
  ]

module _ (lib : AccessLib) (email pw plain : Text) (now later : ℕ) where
  -- A login at `now`, a request at `later`, and the same request after a logout.
  abbrev Session : User → AccessDb → Type 0
  Session u db1 =
      (db2 : AccessDb) × (login lib email pw plain now db1 ≡ done (plain, u, db2))
      × (user_by_token lib plain later db2 ≡ done u)
      × (user_by_token lib plain later (revoke_token lib plain db2) ≡ failed not_found)

  abbrev token_row : ℕ → AuthToken
  token_row id = record {
    token_hash = lib.sha256_hex plain;
    user_id = id;
    expires_at = now + token_ttl;
  }

  issued :
      (u : User) (db1 : AccessDb)
      → find (has_id u.id) db1.users ≡ some u
      → find (has_hash (lib.sha256_hex plain)) db1.auth_tokens ≡ none
      → issue_token lib u.id plain now db1
        ≡ done (record db1 { auth_tokens = db1.auth_tokens ++ token_row u.id ∷ [] })
  unfolding issue_token insert_token
  issued u db1 f n = rw (f, n) refl

  logged_in :
      (u : User) (db1 : AccessDb)
      → find (has_email (normal lib email)) db1.users ≡ some u
      → verify_password lib u.password_hash pw ≡ true
      → find (has_id u.id) db1.users ≡ some u
      → find (has_hash (lib.sha256_hex plain)) db1.auth_tokens ≡ none
      → login lib email pw plain now db1
        ≡ done (plain, u, record db1 { auth_tokens = db1.auth_tokens ++ token_row u.id ∷ [] })
  unfolding login user_by_email or_not_found login_found with_token
  logged_in u db1 f v i n = rw (f, or_not_found, v, issued u db1 i n) refl

  recognised :
      (u : User) (db1 : AccessDb)
      → find (has_id u.id) db1.users ≡ some u
      → find (has_hash (lib.sha256_hex plain)) db1.auth_tokens ≡ none
      → later ≤ now + token_ttl
      → user_by_token lib plain later
          (record db1 { auth_tokens = db1.auth_tokens ++ token_row u.id ∷ [] })
        ≡ done u
  unfolding user_by_token user_of_token user_by_id or_not_found
  recognised u db1 i n le =
      let hit : has_hash (lib.sha256_hex plain) (token_row u.id) ≡ true =
        unfold has_hash in text_eq_refl (lib.sha256_hex plain) in
      let fresh : ltb (now + token_ttl) later ≡ false = ground arith in
      rw
        (
          find-snoc (has_hash (lib.sha256_hex plain)) db1.auth_tokens (token_row u.id) n hit,
          user_of_token,
          fresh,
          i,
        )
        refl

  forgotten :
      (db2 : AccessDb)
      → user_by_token lib plain later (revoke_token lib plain db2) ≡ failed not_found
  unfolding user_by_token revoke_token user_of_token
  forgotten db2 = rw (find-keep-not (has_hash (lib.sha256_hex plain)) db2.auth_tokens) refl

  session :
      (u : User) (db1 : AccessDb)
      → find (has_email (normal lib email)) db1.users ≡ some u
      → verify_password lib u.password_hash pw ≡ true
      → find (has_id u.id) db1.users ≡ some u
      → find (has_hash (lib.sha256_hex plain)) db1.auth_tokens ≡ none
      → later ≤ now + token_ttl
      → Session u db1
  session u db1 f v i n le = (
    record db1 { auth_tokens = db1.auth_tokens ++ token_row u.id ∷ [] },
    logged_in u db1 f v i n,
    recognised u db1 i n le,
    forgotten (record db1 { auth_tokens = db1.auth_tokens ++ token_row u.id ∷ [] }),
  )

  -- After a registration, where the ids of the users are below the next one and the salt is of
  -- bytes, a login with the same address and password and a token whose hash is not in use gives a
  -- session of that user: up to 30 days later the token is that user's, and once it is revoked it is
  -- nobody's.
  pub login-Session :
      (name : Text) (salt : List ℕ) (db db1 : AccessDb) (u : User)
      → KeyIsBytes lib
      → All IsByte salt
      → All (λ v. v.id < db.next_user) db.users
      → create_user lib email name pw salt db ≡ done (u, db1)
      → find (has_hash (lib.sha256_hex plain)) db.auth_tokens ≡ none
      → later ≤ now + token_ttl
      → Session u db1
  login-Session name salt db db1 u law bytes below e n le =
      let c = create_user-Created lib email name pw salt db db1 u e in
      let new = row (normal lib email) (trim_space name) c.hash db.next_user in
      let after : User → AccessDb =
        λ v. record db { users = db.users ++ v ∷ []; next_user = db.next_user + 1 } in
      let valid = (verify_password-hash_password lib pw pw salt c.hash law bytes c.hashed).0 in
      let here =
        session new (after new)
          (find-snoc (has_email (normal lib email)) db.users new c.unused
            (unfold has_email in text_eq_refl (normal lib email)))
          valid
          (find-snoc (has_id db.next_user) db.users new (find_fresh db.next_user db.users below)
            (unfold has_id in ground arith))
          n le in
      subst (λ d. Session u d) (sym c.stored)
        (subst (λ v. Session v (after v)) (sym c.inserted) here)
