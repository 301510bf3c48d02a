-- ===== src/Workspace/Isolation.antt =====
-- The checkouts of a registry.
use labrys.Base.{
  ◌≡◌, ◌≢◌, refl, sym, ◌∙◌, ap, Bool, true, false, not, Option, none, some, List, [], ◌∷◌, ◌++◌,
  map, Text, text, text_eq, text_eq_iff, is_blank, any, find, find_sound, All-find, push, retain,
  modify_first, All, All-push, ok, err, require, workspace_state, pure, modify, lift, ◌>>=◌, ◌>>◌,
  arith, Bool-cases, inl, inr, if◌then◌else◌,
}
use mathlib.Core.Path.{subst}
use mathlib.Core.List.{append_cancel_left}
use labrys.Runtime.{ExplicitApproval}
use labrys.Workspace.Worktrees.{
  CanonicalRepository, WorkspaceDiff, SessionWorkspace, active, open_workspace, record_diff, merge,
  merge_ready, discard, needs_cleanup,
}
use labrys.Workspace.Registry.{
  WorkspaceRegistry, new_registry, owns, allocate, get_workspace, sync, cleanup_finished,
}

-- A change of one worktree.
pub data Change : Type 0 where
  reviewed : WorkspaceDiff → Change
  merging : ExplicitApproval → Change
  discarding : Change

unfoldable pub changed : Change → SessionWorkspace → SessionWorkspace
changed (reviewed diff) w = (record_diff diff w).1
changed (merging approval) w = (merge approval w).1
changed discarding w = (discard w).1

-- The calls that a registry receives: allocations, the changes of a worktree that was looked up and
-- is then synced back, and cleanups.
pub data Call : Type 0 where
  allocation : Text → CanonicalRepository → Text → Text → Call
  change : Text → Change → Call
  cleanup : Call

abbrev pub synced : Change → Option SessionWorkspace → WorkspaceRegistry → WorkspaceRegistry
synced c none r = r
synced c (some w) r = sync (changed c w) r

unfoldable pub called : Call → WorkspaceRegistry → WorkspaceRegistry
unfolding changed
called (allocation fresh repo session_id environment_name) r =
    (allocate fresh repo session_id environment_name r).1
called (change id c) r = synced c (get_workspace id r) r
called cleanup r = (cleanup_finished r).1

abbrev pub calls : List Call → WorkspaceRegistry → WorkspaceRegistry
calls [] r = r
calls (c ∷ cs) r = calls cs (called c r)

-- Where a worktree is checked out, for which application.
abbrev pub checkout : SessionWorkspace → Text × Text
checkout w = (w.worktree_path, w.application_id)

abbrev pub IsDistinct {ℓ} : {A : Type ℓ} → List A → Type ℓ
IsDistinct [] = Unit
IsDistinct (x ∷ xs) = All (λ y. x ≢ y) xs × IsDistinct xs

-- The path is the session's own.
abbrev pub IsOwnPath : SessionWorkspace → Type 0
IsOwnPath w = w.worktree_path ≡ text "worktrees/agt_" ++ w.session_id

abbrev pub IsIsolated : WorkspaceRegistry → Type 0
IsIsolated r = All IsOwnPath r.workspaces × IsDistinct (map checkout r.workspaces)

module _ {ℓ} {A : Type ℓ} where
  IsDistinct-push :
      (xs : List A) (a : A) → IsDistinct xs → All (λ x. x ≢ a) xs → IsDistinct (push xs a)
  IsDistinct-push [] a h n = (tt, tt)
  IsDistinct-push (x ∷ xs) a h n =
      (All-push (λ y. x ≢ y) xs a h.0 n.0, IsDistinct-push xs a h.1 n.1)

module _ {ℓ κ μ} {A : Type ℓ} {B : Type μ} (f : A → B) (P : B → Type κ) (p : A → Bool) where
  All-map-retain : (xs : List A) → All P (map f xs) → All P (map f (retain p xs))
  All-map-retain [] h = tt
  All-map-retain (x ∷ xs) h = ground (arith, All-map-retain xs)

map-push :
    {A B : Type 0} (f : A → B) (xs : List A) (a : A) → map f (push xs a) ≡ push (map f xs) (f a)
map-push f [] a = refl
map-push f (x ∷ xs) a = ap (λ l. f x ∷ l) (map-push f xs a)

IsDistinct-retain :
    {A B : Type 0} (f : A → B) (p : A → Bool) (xs : List A)
    → IsDistinct (map f xs)
    → IsDistinct (map f (retain p xs))
IsDistinct-retain f p [] h = tt
IsDistinct-retain f p (x ∷ xs) h = elim (Bool-cases (p x)) [
  | inl kept ↦ rw kept (All-map-retain f (λ y. f x ≢ y) p xs h.0, IsDistinct-retain f p xs h.1)
  | inr gone ↦ rw gone (IsDistinct-retain f p xs h.1)
]

-- A change keeps what the isolation speaks of.
changed-checkout :
    (c : Change) (w : SessionWorkspace)
    → ((changed c w).worktree_path ≡ w.worktree_path)
      × ((changed c w).application_id ≡ w.application_id)
      × ((changed c w).session_id ≡ w.session_id)
      × ((changed c w).id ≡ w.id)
unfolding changed record_diff merge merge_ready discard
changed-checkout (reviewed diff) w = ground arith
changed-checkout (merging approval) w = ground arith
changed-checkout discarding w = ground arith

-- The first worktree that passes a test is replaced by one with the same checkout and session.
module _ (p : SessionWorkspace → Bool) (w w' : SessionWorkspace)
    (same : checkout w' ≡ checkout w) where
  map-checkout-modify_first :
      (ws : List SessionWorkspace)
      → find p ws ≡ some w
      → map checkout (modify_first p (λ _. w') ws) ≡ map checkout ws
  map-checkout-modify_first [] h = refl
  map-checkout-modify_first (v ∷ ws) h = elim (Bool-cases (p v)) [
    | inl found ↦ rw found (ap (λ k. k ∷ map checkout ws) (same ∙ ap checkout (sym (first found))))
    | inr other ↦ rw other (ap (λ l. checkout v ∷ l) (map-checkout-modify_first ws (rw other at h)))
  ]
    where
      first : p v ≡ true → v ≡ w
      first found = ground arith

  All-modify_first_own :
      (ws : List SessionWorkspace)
      → IsOwnPath w'
      → All IsOwnPath ws
      → All IsOwnPath (modify_first p (λ _. w') ws)
  All-modify_first_own [] o h = tt
  All-modify_first_own (v ∷ ws) o h = elim (Bool-cases (p v)) [
    | inl found ↦ rw found (o, h.1)
    | inr other ↦ rw other (h.0, All-modify_first_own ws o h.1)
  ]

All-retain :
    (p : SessionWorkspace → Bool) (ws : List SessionWorkspace)
    → All IsOwnPath ws
    → All IsOwnPath (retain p ws)
All-retain p [] h = tt
All-retain p (w ∷ ws) h = ground (arith, All-retain p ws)

-- A path determines the session.
same_session : (a b : Text) → text "worktrees/agt_" ++ a ≡ text "worktrees/agt_" ++ b → a ≡ b
same_session a b h = append_cancel_left (text "worktrees/agt_") a b h

owned :
    (session_id application_id : Text) (w : SessionWorkspace)
    → IsOwnPath w
    → owns session_id application_id w ≡ false
    → checkout w ≢ (text "worktrees/agt_" ++ session_id, application_id)
unfolding owns
owned session_id application_id w own free h =
    let session = same_session w.session_id session_id (sym own ∙ ap (λ k. k.0) h) in
    let application : w.application_id ≡ application_id = ap (λ k. k.1) h in
    let s = (text_eq_iff w.session_id session_id).1 session in
    let a = (text_eq_iff w.application_id application_id).1 application in cc

unowned :
    (session_id application_id : Text) (ws : List SessionWorkspace)
    → All IsOwnPath ws
    → any (owns session_id application_id) ws ≡ false
    → All (λ k. k ≢ (text "worktrees/agt_" ++ session_id, application_id)) (map checkout ws)
unowned session_id application_id [] own free = tt
unowned session_id application_id (w ∷ ws) own free =
    elim (Bool-cases (owns session_id application_id w)) [
      | inl taken ↦ absurd (ground arith)
      | inr other ↦ (
        owned session_id application_id w own.0 other,
        unowned session_id application_id ws own.1 (ground arith),
      )
    ]

push-IsIsolated :
    (r : WorkspaceRegistry) (w : SessionWorkspace)
    → IsIsolated r
    → IsOwnPath w
    → All (λ k. k ≢ checkout w) (map checkout r.workspaces)
    → IsIsolated (record { workspaces = push r.workspaces w })
push-IsIsolated r w h own free = (
  All-push IsOwnPath r.workspaces w h.0 own,
  rw (map-push checkout r.workspaces w)
      (IsDistinct-push (map checkout r.workspaces) (checkout w) h.1 free),
)

allocate-IsIsolated :
    (fresh : Text) (repo : CanonicalRepository) (session_id environment_name : Text)
    (r : WorkspaceRegistry)
    → IsIsolated r
    → IsIsolated (allocate fresh repo session_id environment_name r).1
unfolding allocate open_workspace
allocate-IsIsolated fresh repo session_id environment_name r h =
    after (any (owns session_id repo.application_id) r.workspaces) refl (is_blank environment_name)
  where
    made : SessionWorkspace
    made = record {
      id = fresh;
      application_id = repo.application_id;
      environment_name = environment_name;
      session_id = session_id;
      worktree_path = text "worktrees/agt_" ++ session_id;
      branch = text "session/agt_" ++ session_id;
      base_sha = repo.head_sha;
      status = active;
      diff = none;
    }

    after :
        (taken : Bool)
        → any (owns session_id repo.application_id) r.workspaces ≡ taken
        → (blank : Bool)
        → IsIsolated
            ((require (not taken) workspace_state
                >> (lift (if blank then err workspace_state else ok made) >>= λ w.
                    modify (λ r. record { workspaces = push r.workspaces w }) >> pure w))
              r).1
    after true e blank = h
    after false e true = h
    after false e false =
        push-IsIsolated r made h refl (unowned session_id repo.application_id r.workspaces h.0 e)

sync-IsIsolated :
    (c : Change) (id : Text) (w : SessionWorkspace) (r : WorkspaceRegistry)
    → get_workspace id r ≡ some w
    → IsIsolated r
    → IsIsolated (sync (changed c w) r)
unfolding sync get_workspace
sync-IsIsolated c id w r found h =
    let (path, app, session, kept) = changed-checkout c w in
    let w' = changed c w in
    let p : SessionWorkspace → Bool = λ v. text_eq v.id w'.id in
    let is_id : w.id ≡ id =
      (text_eq_iff w.id id).0 (find_sound (λ v. text_eq v.id id) r.workspaces found) in
    let here : find p r.workspaces ≡ some w =
      ap (λ i. find (λ v. text_eq v.id i) r.workspaces) (kept ∙ is_id) ∙ found in
    let same : checkout w' ≡ checkout w =
      ap (λ l. (l, w'.application_id)) path ∙ ap (λ a. (w.worktree_path, a)) app in
    let own = All-find IsOwnPath (λ v. text_eq v.id id) r.workspaces h.0 found in
    let moved : IsOwnPath w' = path ∙ own ∙ ap (λ i. text "worktrees/agt_" ++ i) (sym session) in
    (
      All-modify_first_own p w w' same r.workspaces moved h.0,
      subst IsDistinct (sym (map-checkout-modify_first p w w' same r.workspaces here)) h.1,
    )

synced-IsIsolated :
    (c : Change) (id : Text) (o : Option SessionWorkspace) (r : WorkspaceRegistry)
    → get_workspace id r ≡ o
    → IsIsolated r
    → IsIsolated (synced c o r)
synced-IsIsolated c id none r found h = h
synced-IsIsolated c id (some w) r found h = sync-IsIsolated c id w r found h

called-IsIsolated : (c : Call) (r : WorkspaceRegistry) → IsIsolated r → IsIsolated (called c r)
unfolding called cleanup_finished
called-IsIsolated (allocation fresh repo session_id environment_name) r h =
    allocate-IsIsolated fresh repo session_id environment_name r h
called-IsIsolated (change id c) r h = synced-IsIsolated c id (get_workspace id r) r refl h
called-IsIsolated cleanup r h = (
  All-retain (λ w. not (needs_cleanup w)) r.workspaces h.0,
  IsDistinct-retain checkout (λ w. not (needs_cleanup w)) r.workspaces h.1,
)

calls-keep : (cs : List Call) (r : WorkspaceRegistry) → IsIsolated r → IsIsolated (calls cs r)
calls-keep [] r h = h
calls-keep (c ∷ cs) r h = calls-keep cs (called c r) (called-IsIsolated c r h)

-- After any allocations, changes that are synced back, and cleanups of a new registry, each worktree
-- has its session's own path, and no two worktrees of one application share a path.
pub calls-IsIsolated : (cs : List Call) → IsIsolated (calls cs new_registry)
unfolding new_registry
calls-IsIsolated cs = calls-keep cs new_registry (tt, tt)
