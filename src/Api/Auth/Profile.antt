-- ===== src/Api/Auth/Profile.antt =====
-- What handlePatchMe of internal/api/auth.go writes.
use homepad_api.Base.{
  String, not, List, [], ◌∷◌, Option, some, ok, err, Option-cases, filter, Result-cases, inl, inr,
  ◌==◌, nat_eq, string_eq, text_eq, ◌≡◌, refl, arith,
}
use homepad_api.Storage.{World, Db, UserRow, Act, statement, ◌>>=◌}
use homepad_api.Storage.Users.{
  User, set_user, set_theme_pref, set_density_pref, set_show_health_bar, set_show_uptime_display,
  update_users,
}
use homepad_api.Api.{Response, Request, Server}
use homepad_api.Api.Sessions.{current_user, require_user}
use homepad_api.Api.Sessions.Authentication.{current_user-SameRows}
use homepad_api.Api.Auth.{
  PatchMe, check_patch, write_patch, write_theme, write_density, write_health_bar, write_uptime,
  handle_patch_me,
}

abbrev pub others : String → Db → List UserRow
others id db = filter (λ r. not (r.id == id)) db.users

others-update :
    (id : String) (f : UserRow → UserRow) (rs : List UserRow)
    → ((r : UserRow) → (f r).id ≡ r.id)
    → filter (λ r. not (r.id == id)) (update_users (λ r. r.id == id) f rs)
      ≡ filter (λ r. not (r.id == id)) rs
others-update id f [] h = refl
others-update id f (r ∷ rs) h = ground (arith, others-update id f rs h, h r)

set_user-others :
    (f : UserRow → UserRow) (id : String) (w : World)
    → ((r : UserRow) → (f r).id ≡ r.id)
    → others id (set_user f id w).1.db ≡ others id w.db
unfolding set_user statement
set_user-others f id w h = ground (arith, others-update id f w.db.users h)

pub check_patch-world : (u : User) (b : PatchMe) (w : World) → (check_patch u b w).1 ≡ w
unfolding check_patch
check_patch-world u b w = ground arith

-- What is refused for its fields is refused before anything is written.
pub handle_patch_me-checked :
    (server : Server) (req : Request) (b : PatchMe) (w : World) (u : User) (r : Response)
    → (current_user server req w).0 ≡ ok (some u)
    → (check_patch u b (current_user server req w).1).0 ≡ err r
    → handle_patch_me server req (some b) w ≡ (err r, (current_user server req w).1)
unfolding handle_patch_me require_user check_patch
handle_patch_me-checked server req b w u r found bad = ground (arith, found, bad)

-- An action that keeps a view of the database.
abbrev Keeps : {E A X : Type 0} → (Db → X) → Act E A → Type 0
Keeps f m = (w : World) → f (m w).1.db ≡ f w.db

bind-Keeps :
    {E A B X : Type 0} (f : Db → X) (m : Act E A) (k : A → Act E B)
    → Keeps f m
    → ((a : A) → Keeps f (k a))
    → Keeps f (m >>= k)
bind-Keeps f m k h hk w = elim (Result-cases (m w).0) [
  | inl (a, is_a) ↦ ground (arith, is_a, h w, hk a (m w).1)
  | inr (e, is_e) ↦ ground (arith, is_e, h w)
]

module _ (b : PatchMe) (id : String) (u : User) (w : World) where
  write_theme-others : others id (write_theme b id u w).1.db ≡ others id w.db
  unfolding write_theme set_theme_pref
  write_theme-others = elim (Option-cases b.theme_pref) [
    | inl absent ↦ ground (arith, absent)
    | inr (v, is_v) ↦
        ground (arith, is_v, set_user-others (λ r. record r { theme_pref = v }) id w (λ r. refl))
  ]

  write_density-others : others id (write_density b id u w).1.db ≡ others id w.db
  unfolding write_density set_density_pref
  write_density-others = elim (Option-cases b.density_pref) [
    | inl absent ↦ ground (arith, absent)
    | inr (v, is_v) ↦
        ground (arith, is_v, set_user-others (λ r. record r { density_pref = v }) id w (λ r. refl))
  ]

  write_health_bar-others : others id (write_health_bar b id u w).1.db ≡ others id w.db
  unfolding write_health_bar set_show_health_bar
  write_health_bar-others = elim (Option-cases b.show_health_bar) [
    | inl absent ↦ ground (arith, absent)
    | inr (v, is_v) ↦
        ground
          (arith, is_v, set_user-others (λ r. record r { show_health_bar = v }) id w (λ r. refl))
  ]

  write_uptime-others : others id (write_uptime b id u w).1.db ≡ others id w.db
  unfolding write_uptime set_show_uptime_display
  write_uptime-others = elim (Option-cases b.show_uptime_display) [
    | inl absent ↦ ground (arith, absent)
    | inr (v, is_v) ↦
        ground (
          arith,
          is_v,
          set_user-others (λ r. record r { show_uptime_display = v }) id w (λ r. refl),
        )
  ]

write_patch-others :
    (b : PatchMe) (u : User) (w : World) → others u.id (write_patch b u w).1.db ≡ others u.id w.db
unfolding write_patch
write_patch-others b u w =
    let step1 = write_theme b u.id u >>= write_density b u.id in
    bind-Keeps (others u.id) (step1 >>= write_health_bar b u.id) (write_uptime b u.id)
      (bind-Keeps (others u.id) step1 (write_health_bar b u.id)
        (bind-Keeps (others u.id) (write_theme b u.id u) (write_density b u.id)
          (write_theme-others b u.id u) (write_density-others b u.id))
        (write_health_bar-others b u.id))
      (write_uptime-others b u.id) w

-- A patch of the own settings leaves the row of every other account, in its place.
pub handle_patch_me-others :
    (server : Server) (req : Request) (body : Option PatchMe) (w : World) (u : User)
    → (current_user server req w).0 ≡ ok (some u)
    → others u.id (handle_patch_me server req body w).1.db ≡ others u.id w.db
unfolding handle_patch_me require_user
handle_patch_me-others server req body w u found =
    let w1 = (current_user server req w).1 in
    let same = current_user-SameRows server req w in
    elim (Option-cases body) [
      | inl undecoded ↦ ground (arith, found, undecoded, same)
      | inr (b, is_b) ↦ elim (Result-cases (check_patch u b w1).0) [
        | inr (r, bad) ↦ ground (arith, found, is_b, bad, same, check_patch-world u b w1)
        | inl (one, good) ↦ elim (Result-cases (write_patch b u w1).0) [
          | inl (v, done) ↦ ground (
            arith,
            found,
            is_b,
            good,
            done,
            same,
            check_patch-world u b w1,
            write_patch-others b u w1,
          )
          | inr (r, undone) ↦ ground (
            arith,
            found,
            is_b,
            good,
            undone,
            same,
            check_patch-world u b w1,
            write_patch-others b u w1,
          )
        ]
      ]
    ]
