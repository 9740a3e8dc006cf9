-- ===== src/Users/Accounts.antt =====
-- The operations on users, groups and API keys that an administrator has.
use byte_hive.Base.{ℕ, Bool, true, false, ◌||◌, not, Option, none, some}
use byte_hive.Base.{List, [], ◌∷◌, ◌++◌, Text, codes, ltb, if◌then◌else◌, ◌==◌, nat_eq, list_eq}
use byte_hive.Base.{length, contains, select, any, map}
use byte_hive.Base.{◌≡◌, refl, ◌∙◌, ap, arith, ◌≢◌}
use mathlib.Core.Path.{subst}
use byte_hive.Base.Dict
use byte_hive.Base.Dict.{NodupKeys}
use byte_hive.Base.Dict.{Dict}
use byte_hive.Users.Sessions.{validate, groups_for_user}
use byte_hive.Users.Sessions.Collection.{persist-keeps}
use byte_hive.Users.{
  Argon, UserEntry, Group, Session, UserStore, UserError, UserResult, ok, err, setup_completed,
  password_too_short, already_exists, not_found, is_protected, group_admin, group_user,
  protected_groups, persist, needs_setup,
}

-- A member is added unless the list holds it.
add_member : Text → Group → Group
add_member username g =
    if contains g.members username then g else record g { members = g.members ++ username ∷ [] }

add_admin : Group → Group
unfolding add_member
add_admin g =
    if g.name == group_admin || g.name == group_user then add_member (codes "admin") g else g

-- The first entry that passes the test, changed; none if there is no such entry.
change_first : {A : Type 0} → (A → Bool) → (A → A) → List A → Option (List A)
change_first test f [] = none
change_first test f (x ∷ xs) =
    let rest = change_first test f xs in
    if test x then some (f x ∷ xs) else elim rest [ none ↦ none | some ys ↦ some (x ∷ ys) ]

-- The arms that follow a lookup of a group to change.
with_groups : UserStore → Option (List Group) → UserResult
unfolding persist
with_groups s none = err not_found
with_groups s (some groups) = ok (persist (record s { groups = groups }))

module _ (A : Argon) where
  pub complete_setup : UserStore → Text → Text → UserResult
  unfolding add_admin persist needs_setup
  complete_setup s salt password =
      if not (needs_setup s)
      then err setup_completed
      else if ltb (length password) 8
      then err password_too_short
      else ok (
          persist (record s {
            users =
                s.users
                ++ record {
                  username = codes "admin";
                  password_hash = A.hash salt password;
                  display_name = codes "Administrator";
                }
                  ∷ [];
            groups = map add_admin s.groups;
          }))

  -- The new name and the new password, where they are given.
  renamed : Option Text → UserEntry → UserEntry
  renamed none u = u
  renamed (some name) u = record u { display_name = name }

  with_password : Text → Option Text → UserEntry → UserEntry
  with_password salt none u = u
  with_password salt (some pw) u = record u { password_hash = A.hash salt pw }

  pub update_user : UserStore → Text → Text → Option Text → Option Text → UserResult
  unfolding change_first persist renamed with_password
  update_user s salt username new_display_name new_password =
      elim (change_first (λ u. u.username == username)
        (λ u. with_password salt new_password (renamed new_display_name u)) s.users) [
          | none ↦ err not_found
          | some users ↦ ok (persist (record s { users = users }))
        ]

unfoldable pub add_user : UserStore → UserEntry → UserResult
unfolding persist
add_user s entry =
    if any (λ u. u.username == entry.username) s.users
    then err already_exists
    else ok (persist (record s { users = s.users ++ entry ∷ [] }))

abbrev without_member : Text → Group → Group
without_member username g = record g { members = select (λ m. not (m == username)) g.members }

unfoldable pub remove_user : UserStore → Text → UserResult
unfolding persist
remove_user s username =
    let users = select (λ u. not (u.username == username)) s.users in
    if length users == length s.users
    then err not_found
    else ok (
        persist (record s {
          users = users;
          sessions = Dict.retain (λ _ sess. not (sess.username == username)) s.sessions;
          groups = map (without_member username) s.groups;
        }))

unfoldable pub add_group : UserStore → Group → UserResult
unfolding persist
add_group s group =
    if any (λ g. g.name == group.name) s.groups
    then err already_exists
    else ok (persist (record s { groups = s.groups ++ group ∷ [] }))

unfoldable pub remove_group : UserStore → Text → UserResult
unfolding persist
remove_group s name =
    let groups = select (λ g. not (g.name == name)) s.groups in
    if contains protected_groups name
    then err is_protected
    else if length groups == length s.groups
    then err not_found
    else ok (persist (record s { groups = groups }))

unfoldable pub add_member_to_group : UserStore → Text → Text → UserResult
unfolding change_first add_member with_groups
add_member_to_group s group_name username =
    with_groups s (change_first (λ g. g.name == group_name) (add_member username) s.groups)

unfoldable pub remove_member_from_group : UserStore → Text → Text → UserResult
unfolding change_first with_groups
remove_member_from_group s group_name username =
    with_groups s (change_first (λ g. g.name == group_name) (without_member username) s.groups)

-- The new key itself is the UUID drawn.
unfoldable pub create_api_key : UserStore → ℕ → Text → Text → Text → Option ℕ → UserResult
unfolding persist
create_api_key s now uuid name as_user expires_ms =
    if any (λ k. k.name == name) s.api_keys
    then err already_exists
    else ok (
        persist (record s {
          api_keys =
              s.api_keys
              ++ record {
                name = name;
                key = uuid;
                as_user = as_user;
                expires_ms = expires_ms;
                created_at = now;
              }
                ∷ [];
        }))

unfoldable pub revoke_api_key : UserStore → Text → UserResult
unfolding persist
revoke_api_key s name =
    let keys = select (λ k. not (k.name == name)) s.api_keys in
    if length keys == length s.api_keys
    then err not_found
    else ok (persist (record s { api_keys = keys }))

select_none : {A : Type 0} (p : A → Bool) (xs : List A) → any p (select (λ x. not (p x)) xs) ≡ false
select_none p [] = refl
select_none p (x ∷ xs) = ground (arith, select_none p xs)

contains-without : (u : Text) (ms : List Text) → contains (select (λ m. not (m == u)) ms) u ≡ false
contains-without u [] = refl
contains-without u (m ∷ ms) = ground (arith, contains-without u ms)

groups_without :
    (u : Text) (gs : List Group)
    → select (λ g. contains g.members u) (map (without_member u) gs) ≡ []
groups_without u [] = refl
groups_without u (g ∷ gs) = ground (arith, groups_without u gs, contains-without u g.members)

removed_session :
    (u : Text) (d : Dict Text Session) (token : Text) (now : ℕ) (sess : Session) (s : UserStore)
    → NodupKeys d
    → s.sessions ≡ Dict.retain (λ _ x. not (x.username == u)) d
    → validate s now token ≡ some sess
    → sess.username ≢ u
unfolding validate
removed_session u d token now sess s nd e h =
    ground (arith, Dict.lookup-retain (λ _ (x : Session). not (x.username == u)) token d nd)

-- No account of the name, no membership in any group, and no token that is valid for it.
abbrev pub IsGone : Text → UserStore → Type 0
IsGone username t =
    (any (λ u. u.username == username) t.users ≡ false)
    × (groups_for_user t username ≡ [])
    × ((token : Text) (now : ℕ) (sess : Session)
        → validate t now token ≡ some sess
        → sess.username ≢ username)

ok_of : (b : Bool) (e : UserError) (x t : UserStore) → (if b then err e else ok x) ≡ ok t → x ≡ t
ok_of true e x t h = cc
ok_of false e x t h = cc

removed-IsGone :
    (s : UserStore) (username : Text)
    → NodupKeys s.sessions
    → IsGone username (
        persist (record s {
          users = select (λ u. not (u.username == username)) s.users;
          sessions = Dict.retain (λ _ sess. not (sess.username == username)) s.sessions;
          groups = map (without_member username) s.groups;
        }))
unfolding groups_for_user
removed-IsGone s username nd =
    let s' = record s {
      users = select (λ u. not (u.username == username)) s.users;
      sessions = Dict.retain (λ _ sess. not (sess.username == username)) s.sessions;
      groups = map (without_member username) s.groups;
    } in
    let (sessions, _, groups, users, _) = persist-keeps s' in
    (
      ap (any (λ (u : UserEntry). u.username == username)) users
          ∙ select_none (λ (u : UserEntry). u.username == username) s.users,
      ap (λ (gs : List Group). map (λ g. g.name) (select (λ g. contains g.members username) gs))
            groups
          ∙ ap (map (λ (g : Group). g.name)) (groups_without username s.groups),
      λ token now sess h.
          removed_session username s.sessions token now sess (persist s') nd sessions h,
    )

-- Removing a user that succeeds leaves nothing of it: no account of the name, no membership in any
-- group, and no token that is valid for it.
pub remove_user-IsGone :
    (s t : UserStore) (username : Text)
    → remove_user s username ≡ ok t
    → NodupKeys s.sessions
    → IsGone username t
unfolding remove_user
remove_user-IsGone s t username h nd =
    subst (IsGone username) (ok_of _ not_found _ t h) (removed-IsGone s username nd)
