-- ===== src/Authz/Principal/Listing.antt =====
-- What a listing shows a caller, grant by grant.
use text.Mathlib.Text.{◌==◌ as str_eq}
use fleetward.Base.{
  exists-append, ℕ, ◌≡◌, ◌∙◌, inl, inr, Bool, not, ◌&&◌, ◌||◌, List, [], ◌∷◌, ◌++◌, some, String,
  arith, ltb, leb, if◌then◌else◌, Bool-cases, exists,
}
use fleetward.Authz.Principal.{
  Grant, is_tenant_wide, Principal, is_trusted, Visibility, nothing_visible, visible_to,
  visibility_for, shows,
}

-- A grant reaches a row when it is tenant-wide, or names the row's instance, or names no instance and
-- the row's environment.
unfoldable pub reaches : String → String → Grant → Bool
reaches environment_id instance_id g =
    is_tenant_wide g
    || (if str_eq g.instance_id ""
        then not (str_eq g.environment_id "") && str_eq environment_id g.environment_id
        else str_eq instance_id g.instance_id)

module _ (min_rank : ℕ) (environment_id instance_id : String) where
  shows-visible_to :
      (gs : List Grant) (v : Visibility)
      → shows (visible_to min_rank gs v) environment_id instance_id ≡ (
          shows v environment_id instance_id
          || exists (λ g. reaches environment_id instance_id g && leb min_rank g.rank) gs)
  unfolding visible_to shows reaches is_tenant_wide
  shows-visible_to [] v = ground arith
  shows-visible_to (g ∷ gs) v = elim (Bool-cases (ltb g.rank min_rank)) [
    | inl low ↦ rw low (shows-visible_to gs v ∙ ground arith)
    | inr high ↦ elim (Bool-cases (is_tenant_wide g)) [
      | inl wide ↦ ground arith
      | inr narrow ↦ elim (Bool-cases (str_eq g.instance_id "")) [
        | inl no_instance ↦ ground (
          arith,
          shows-visible_to gs
              (record v { environment_ids = v.environment_ids ++ (g.environment_id ∷ []) }),
          exists-append (str_eq environment_id) v.environment_ids (g.environment_id ∷ []),
        )
        | inr instance ↦ ground (
          arith,
          shows-visible_to gs (record v { instance_ids = v.instance_ids ++ (g.instance_id ∷ []) }),
          exists-append (str_eq instance_id) v.instance_ids (g.instance_id ∷ []),
        )
      ]
    ]
  ]

  -- A listing shows a person a row exactly when one of their grants, of the rank that was asked for,
  -- reaches it. A trusted caller sees every row.
  pub listing_shows_what_grants_reach :
      (p : Principal)
      → shows (visibility_for (some p) min_rank) environment_id instance_id ≡ (
          is_trusted p.kind
          || exists (λ g. reaches environment_id instance_id g && leb min_rank g.rank) p.grants)
  unfolding visibility_for shows
  listing_shows_what_grants_reach p = elim (Bool-cases (is_trusted p.kind)) [
    | inl trusted ↦ simp trusted
    | inr untrusted ↦ simp untrusted (shows-visible_to p.grants nothing_visible)
  ]
