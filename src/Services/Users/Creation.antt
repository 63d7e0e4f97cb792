-- ===== src/Services/Users/Creation.antt =====
-- New accounts, and the addresses of the table.
use dvarpala.Base.{
  ℕ, ◌≡◌, refl, sym, ap, ◌∙◌, subst, ◌⊎◌, inl, inr, not, false, Option, none, some, Text, List, [],
  ◌∷◌, ◌++◌, find, any, any_of_find, any-append, text_eq, arith, Bool-cases,
}
use dvarpala.Models.{User}
use dvarpala.Platform.{Env, World, invalid_email, raise, ◌>>=◌, select, insert, execute, tables}
use dvarpala.Platform.Rules.{run-cases, select-ok, bind-after_ok, bind-after_err, either}
use dvarpala.Platform.Database.{Tables, add_row}
use dvarpala.Services.Audit.{Entry, log}
use dvarpala.Services.Users.{
  CreateUserRequest, has_email, normalise_email, looks_like_email, new_user, creation, insert_user,
  store_user, create_user,
}

abbrev pub user_rows : Tables → List User
user_rows t = t.users.rows

-- No two rows have one address; the rows of closed and of deleted accounts count.
abbrev pub Unique : List User → Type 0
Unique [] = Unit {0}
Unique (u ∷ us) = (any (has_email u.email) us ≡ false) × Unique us

text_eq_comm : (s t : Text) → text_eq s t ≡ text_eq t s
unfolding text_eq
text_eq_comm [] [] = refl
text_eq_comm [] (y ∷ t) = refl
text_eq_comm (x ∷ s) [] = refl
text_eq_comm (x ∷ s) (y ∷ t) = ground (arith, text_eq_comm s t)

Unique-append :
    (v : User) (us : List User)
    → any (has_email v.email) us ≡ false
    → Unique us
    → Unique (us ++ v ∷ [])
unfolding any
Unique-append v [] h k = (refl, tt)
Unique-append v (u ∷ us) h (k, l) = (
  ground (arith, any-append (has_email u.email) us (v ∷ []), text_eq_comm u.email v.email),
  Unique-append v us (ground arith) l,
)

-- What CreateUser leaves.
abbrev pub Kept : CreateUserRequest → Tables → Tables → Type 0
Kept req t t' =
    Unique (user_rows t')
    × ((user_rows t' ≡ user_rows t)
        ⊎ (user_rows t'
            ≡ user_rows t ++ new_user (normalise_email req.email) req t.users.next_id ∷ []))

Kept-same :
    (req : CreateUserRequest) (t t' : Tables) → Unique (user_rows t) → t' ≡ t → Kept req t t'
Kept-same req t t' h e = (subst (λ x. Unique (user_rows x)) (sym e) h, inl (ap user_rows e))

module _ {env : Env} where
  log-users :
      (now : ℕ) (e : Entry) (w : World env)
      → user_rows (tables (log now e w).1) ≡ user_rows (tables w)
  unfolding log execute
  log-users now e w = elim (Bool-cases (env.database.up w.database)) [
    | inl h ↦ ap user_rows (env.database.view-update _ w.database h)
    | inr h ↦ ap user_rows (env.database.view-update_down _ w.database h)
  ]

  -- An insertion adds the row, with an identifier of the table, or nothing.
  insert_user-rows :
      (now : ℕ) (email : Text) (req : CreateUserRequest) (w : World env)
      → let t = tables w in
        let t' = tables (insert_user now email req w).1 in
        (user_rows t' ≡ user_rows t)
        ⊎ (user_rows t' ≡ user_rows t ++ new_user email req t.users.next_id ∷ [])
  unfolding insert_user ◌>>=◌ insert
  insert_user-rows now email req w =
      let q = λ (t : Tables). new_user email req t.users.next_id in
      let f = λ (t : Tables). record t { users = add_row (new_user email req) t.users } in
      let v = (insert q f w).1 in
      let e = creation (new_user email req (tables w).users.next_id) in
      elim (Bool-cases (env.database.up w.database)) [
        | inl h ↦ inr (ground (arith, log-users now e v, env.database.view-update f w.database h))
        | inr h ↦ inl (ground (arith, env.database.view-update_down f w.database h))
      ]

  select-tables : {A : Type 0} (q : Tables → A) (w : World env) → tables (select q w).1 ≡ tables w
  unfolding select
  select-tables q w = env.database.view-query w.database

  Kept-inserted :
      (now : ℕ) (req : CreateUserRequest) (w : World env)
      → Unique (user_rows (tables w))
      → find (has_email (normalise_email req.email)) (user_rows (tables w)) ≡ none
      → Kept req (tables w) (tables (insert_user now (normalise_email req.email) req w).1)
  Kept-inserted now req w h free =
      let email = normalise_email req.email in
      elim (insert_user-rows now email req w) [
        | inl e ↦ (subst Unique (sym e) h, inl e)
        | inr e ↦ (
          subst Unique (sym e) (
              Unique-append (new_user email req (tables w).users.next_id) (user_rows (tables w))
                (any_of_find (has_email email) (user_rows (tables w)) free) h),
          inr e,
        )
      ]

  stored-Kept :
      (now : ℕ) (req : CreateUserRequest) (o : Option User) (t : Tables) (v : World env)
      → Unique (user_rows t)
      → tables v ≡ t
      → o ≡ find (has_email (normalise_email req.email)) (user_rows t)
      → Kept req t (tables (store_user now (normalise_email req.email) req o v).1)
  stored-Kept now req (some u) t v h e f = Kept-same req t (tables v) h e
  stored-Kept now req none t v h e f =
      let email = normalise_email req.email in
      subst (λ x. Kept req x (tables (insert_user now email req v).1)) e
        (Kept-inserted now req v (subst (λ x. Unique (user_rows x)) (sym e) h)
          (ap (λ x. find (has_email email) (user_rows x)) e ∙ sym f))

  looked-Kept :
      (now : ℕ) (req : CreateUserRequest) (w : World env)
      → Unique (user_rows (tables w))
      → let email = normalise_email req.email in
        Kept req (tables w) (
          tables
            ((select (λ t. find (has_email email) t.users.rows) >>= λ o. store_user now email req o)
              w).1)
  looked-Kept now req w h =
      let email = normalise_email req.email in
      let q = λ (t : Tables). find (has_email email) t.users.rows in
      let f = λ (o : Option User). store_user now email req o in
      elim (run-cases (select q) w) [
        | inl (o, v, e) ↦
            let (same, t, k) = select-ok q e in
            subst (λ x. Kept req (tables w) (tables x.1)) (sym (bind-after_ok (select q) f e))
              (stored-Kept now req o (tables w) v h t same)
        | inr (x, v, e) ↦
            subst (λ y. Kept req (tables w) (tables y.1)) (sym (bind-after_err (select q) f e))
              (Kept-same req (tables w) (tables v) h
                (sym (ap (λ y. tables y.1) e) ∙ select-tables q w))
      ]

  -- However CreateUser ends, and whether or not the database answers, the addresses of the table
  -- stay different if they were; and there is at most the one new row, behind the others, which has
  -- the address asked for, in lower case and without blanks around it.
  pub create_user-Unique :
      (now : ℕ) (req : CreateUserRequest) (w : World env)
      → Unique (user_rows (tables w))
      → Kept req (tables w) (tables (create_user now req w).1)
  unfolding create_user
  create_user-Unique now req w h =
      either (λ x. Kept req (tables w) (tables x.1))
        (not (looks_like_email (normalise_email req.email))) (raise {A = User} invalid_email)
        (select (λ t. find (has_email (normalise_email req.email)) t.users.rows) >>= λ o.
          store_user now (normalise_email req.email) req o)
        {w = w} (Kept-same req (tables w) (tables w) h refl) (looked-Kept now req w h)
