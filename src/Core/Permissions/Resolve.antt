-- ===== src/Core/Permissions/Resolve.antt =====
-- backend/core/permissions.go: what grants, revocations and ticks do to the answers of Resolve.
use text.Mathlib.TextPositions.{eq_refl}
use deep_seek_harness_x.Prelude.{
  String, Bool, true, false, ◌&&◌, ◌||◌, Option, none, some, [], ◌∷◌, if◌then◌else◌, str_eq, eq_iff,
  Map, lookup, insert, delete, lookup-insert, lookup-delete, Result, ok, err, ok-injective, arith,
  ◌≡◌, refl, sym, ap, ◌∙◌, Option-cases, Bool-cases, inl, inr, subst,
}
use deep_seek_harness_x.Prelude.Int.{ℤ, pos, ◌≤ℤ◌, ltb_ℤ, leb_ℤ, ◌+ℤ◌}
use deep_seek_harness_x.Core.Permissions.{
  NodeDescriptor, Target, Grant, PermissionService, grants_at, grants_of, is_live, any_live,
  resolve, dated, add_grant, put_remaining, grant_fields_required, revoke_in, revoke, is_expired,
  unexpired, keep_target, tick_grants, tick, target_key, answer, session_target, or_now, expiry_of,
}

-- A grant that Tick removes is live at no later time.
any_live-unexpired :
    (now later : ℤ) (node : String) (gs : Map Grant)
    → now ≤ℤ later
    → any_live later node (unexpired now gs) ≡ any_live later node gs
unfolding any_live unexpired is_live is_expired
any_live-unexpired now later node [] le = refl
any_live-unexpired now later node ((id, g) ∷ gs) le =
    ground (arith, any_live-unexpired now later node gs le)

grants_of-tick :
    (now : ℤ) (key : String) (m : Map (Map Grant))
    → grants_at (lookup key (tick_grants now m)) ≡ unexpired now (grants_at (lookup key m))
unfolding tick_grants keep_target lookup grants_at unexpired
grants_of-tick now key [] = refl
grants_of-tick now key ((k, gs) ∷ m) = keep (unexpired now gs) refl (grants_of-tick now key m)
  where
    keep :
        (left : Map Grant)
        → unexpired now gs ≡ left
        → grants_at (lookup key (tick_grants now m)) ≡ unexpired now (grants_at (lookup key m))
        → grants_at (lookup key (keep_target k left (tick_grants now m)))
          ≡ unexpired now (grants_at (if str_eq k key then some gs else lookup key m))
    keep [] same ih = ground (arith, same, ih, lookup-delete k key (tick_grants now m))
    keep (g ∷ left) same ih = ground (arith, same, ih)

-- A session's permissions are the same after a tick as before it, at the time of the tick and at
-- every later one.
pub resolve-tick :
    (ps : PermissionService) (now later : ℤ) (session_id node : String)
    → now ≤ℤ later
    → resolve (tick ps now) later session_id node ≡ resolve ps later session_id node
unfolding resolve tick grants_of
resolve-tick ps now later session_id node le =
    let key = target_key (session_target session_id) in
    ap (answer (lookup node ps.nodes) session_id) (
      ap (any_live later node) (grants_of-tick now key ps.grants)
      ∙ any_live-unexpired now later node (grants_at (lookup key ps.grants)) le)

-- The grants of a target after a write of them.
grants_of-put_remaining :
    (ps : PermissionService) (key j : String) (gs : Map Grant)
    → grants_of (put_remaining ps key gs) j ≡ (if str_eq key j then gs else grants_of ps j)
unfolding grants_of put_remaining grants_at
grants_of-put_remaining ps key j [] = ground (arith, lookup-delete key j ps.grants)
grants_of-put_remaining ps key j (g ∷ gs) = ground (arith, lookup-insert key j (g ∷ gs) ps.grants)

any_live-delete :
    (now : ℤ) (node id : String) (gs : Map Grant)
    → any_live now node (delete id gs) ≡ true
    → any_live now node gs ≡ true
unfolding any_live delete
any_live-delete now node id [] live = live
any_live-delete now node id ((j, h) ∷ gs) live =
    ground (arith, live, any_live-delete now node id gs)

found_itself : {A : Type 0} {b : Bool} (x y : A) → b ≡ true → (if b then x else y) ≡ x
found_itself x y e = rw e

answer-or :
    (nd : NodeDescriptor) (session_id : String) (honoured live kind rest : Bool)
    → (kind || (str_eq session_id "" || rest)) ≡ false
    → answer (some nd) session_id (honoured || live)
      ≡ (honoured || answer (some nd) session_id live)
unfolding answer
answer-or nd session_id honoured live kind rest named = ground (arith, named)

nodes-put_remaining :
    (ps : PermissionService) (key : String) (gs : Map Grant)
    → (put_remaining ps key gs).nodes ≡ ps.nodes
unfolding put_remaining
nodes-put_remaining ps key [] = refl
nodes-put_remaining ps key (g ∷ gs) = refl

-- More live grants never lose a permission.
answer_mono :
    (nd : Option NodeDescriptor) (session_id : String) (live live' : Bool)
    → (live ≡ true → live' ≡ true)
    → answer nd session_id live ≡ true
    → answer nd session_id live' ≡ true
unfolding answer
answer_mono none session_id live live' more had = had
answer_mono (some nd) session_id live live' more had = ground (arith, had, more)

-- What passes a guard.
guard-ok :
    {E A : Type 0} (b : Bool) (e : E) (x y : A)
    → ◌≡◌ {A = Result E A} (if b then err e else ok x) (ok y)
    → (b ≡ false) × (x ≡ y)
guard-ok true e x y h = absurd (ground (arith, h))
guard-ok false e x y h = (refl, ok-injective h)

abbrev pub is_given : Option Grant → Bool
is_given none = false
is_given (some g) = true

revoke_in-ok :
    (ps ps' : PermissionService) (key grant_id : String) (found : Option (Map Grant))
    → revoke_in ps key grant_id found ≡ ok ps'
    → (gs : Map Grant) × ((found ≡ some gs)
        × ((put_remaining ps key (delete grant_id gs) ≡ ps')
            × (is_given (lookup grant_id gs) ≡ true)))
unfolding revoke_in
revoke_in-ok ps ps' key grant_id none h = absurd (ground (arith, h))
revoke_in-ok ps ps' key grant_id (some gs) h = (
  gs,
  (
    refl,
    elim (Option-cases (lookup grant_id gs)) [
      | inl e ↦ absurd (ground (arith, h, e))
      | inr (g, e) ↦ (ok-injective (sym (rw (e, revoke_in)) ∙ h), ap is_given e)
    ],
  ),
)

abbrev made : ℤ → Option ℤ → ℤ
made now none = now
made now (some t) = t

honoured_until : ℤ → ℤ → ℤ → Option ℤ → Bool
honoured_until later created duration (some expiry) = ltb_ℤ later expiry
honoured_until later created duration none =
    leb_ℤ duration (pos 0) || ltb_ℤ later (created +ℤ duration)

-- Whether a grant made now is to be honoured later: before its expiry date; without one, within its duration from
-- its creation, and always where that is not positive.
unfoldable pub is_honoured : ℤ → ℤ → Grant → Bool
unfolding honoured_until
is_honoured now later g = honoured_until later (made now g.created_at) g.duration g.expires_at

is_live-expiry_of :
    (now later duration : ℤ) (created expires : Option ℤ)
    → is_live later (expiry_of (or_now now created) duration expires)
      ≡ honoured_until later (made now created) duration expires
unfolding is_live or_now expiry_of honoured_until
is_live-expiry_of now later duration created (some t) = refl
is_live-expiry_of now later duration none none = ground arith
is_live-expiry_of now later duration (some c) none = ground arith

-- A new grant, besides those there were.
any_live-insert_new :
    (later : ℤ) (node id : String) (g : Grant) (gs : Map Grant)
    → lookup id gs ≡ none
    → any_live later node (insert id g gs)
      ≡ (str_eq g.node node && is_live later g.expires_at || any_live later node gs)
unfolding any_live insert lookup
any_live-insert_new later node id g [] new = ground arith
any_live-insert_new later node id g ((j, h) ∷ gs) new = elim (Bool-cases (str_eq j id)) [
  | inl same ↦ ground (arith, same, new)
  | inr other ↦
      ground
        (arith, other, new, any_live-insert_new later node id g gs (ground (arith, other, new)))
]

module _ (ps : PermissionService) where
  -- A grant under a new id to a session, for a node that is registered: at every time the session has the node if
  -- the grant is then to be honoured or if the session had it without the grant, and not otherwise.
  pub resolve-add_grant :
      (now later : ℤ) (session_id : String) (g : Grant) (nd : NodeDescriptor)
      (ps' : PermissionService)
      → lookup g.node ps.nodes ≡ some nd
      → lookup g.id (grants_of ps (target_key (session_target session_id))) ≡ none
      → add_grant ps now (session_target session_id) g ≡ ok ps'
      → resolve ps' later session_id g.node
        ≡ (is_honoured now later g || resolve ps later session_id g.node)
  unfolding add_grant resolve is_honoured
  resolve-add_grant now later session_id g nd ps' registered new is_ok =
      let key = target_key (session_target session_id) in
      let (named, same) = guard-ok _ grant_fields_required _ ps' is_ok in
      let gs = insert g.id (dated now g) (grants_of ps key) in
      let old = any_live later g.node (grants_of ps key) in
      let any_of_it : any_live later g.node (grants_at (lookup key (insert key gs ps.grants)))
          ≡ (is_honoured now later g || old) =
        ap (λ z. any_live later g.node (grants_at z))
          (lookup-insert key key gs ps.grants
            ∙ found_itself (some gs) (lookup key ps.grants) (eq_refl key))
        ∙ any_live-insert_new later g.node g.id (dated now g) (grants_of ps key) new
        ∙ rw
            (
              eq_refl g.node,
              ← is_live-expiry_of now later g.duration g.created_at g.expires_at,
              dated,
              is_honoured,
            )
            refl in
      subst
        (λ z.
          resolve z later session_id g.node
          ≡ (is_honoured now later g || resolve ps later session_id g.node))
        same
        (ap (answer (lookup g.node ps.nodes) session_id) any_of_it
          ∙ ap (λ z. answer z session_id (is_honoured now later g || old)) registered
          ∙ answer-or nd session_id (is_honoured now later g) old (str_eq "session" "")
              (str_eq g.id "" || str_eq g.node "") named
          ∙ ap (λ z. is_honoured now later g || answer z session_id old) (sym registered))

  pub revoke-resolve :
      (target : Target) (grant_id : String) (ps' : PermissionService) (now : ℤ)
      (session_id node : String)
      → revoke ps target grant_id ≡ ok ps'
      → resolve ps' now session_id node ≡ true
      → resolve ps now session_id node ≡ true
  unfolding revoke resolve grants_of
  revoke-resolve target grant_id ps' now session_id node is_ok had =
      let key = target_key target in
      let (gs, (found, (same, _))) =
        revoke_in-ok ps ps' key grant_id (lookup key ps.grants) is_ok in
      answer_mono (lookup node ps.nodes) session_id _ _ (revoked key gs found) (
        subst
          (λ z.
            answer (lookup node z) session_id
              (any_live now node (grants_of (put_remaining ps key (delete grant_id gs)) skey))
            ≡ true)
          (nodes-put_remaining ps key (delete grant_id gs))
          (subst (λ z. resolve z now session_id node ≡ true) (sym same) had))
    where
      skey : String
      skey = target_key (session_target session_id)

      revoked :
          (key : String) (gs : Map Grant)
          → lookup key ps.grants ≡ some gs
          → any_live now node (grants_of (put_remaining ps key (delete grant_id gs)) skey) ≡ true
          → any_live now node (grants_of ps skey) ≡ true
      revoked key gs found live = elim (Bool-cases (str_eq key skey)) [
        | inl e ↦
            let gone : any_live now node (delete grant_id gs) ≡ true =
              subst (λ z. any_live now node z ≡ true) (grants_of-put_remaining ps key skey _ ∙ rw e)
                live in
            subst (λ z. any_live now node z ≡ true)
              (sym (ap (grants_of ps) (sym ((eq_iff key skey).0 e)) ∙ ap grants_at found))
              (any_live-delete now node grant_id gs gone)
        | inr e ↦
            subst (λ z. any_live now node z ≡ true) (grants_of-put_remaining ps key skey _ ∙ rw e)
              live
      ]

  grants_of-found :
      (k : String) (gs : Map Grant) → lookup k ps.grants ≡ some gs → grants_of ps k ≡ gs
  unfolding grants_of grants_at
  grants_of-found k gs at = ap grants_at at

  -- A revocation that is accepted is of a grant that there is, and takes away that grant and no other: under the key
  -- of every target every grant reads as before, but for the revoked one, which is missing, and the nodes stay.
  pub revoke-removes :
      (target : Target) (grant_id : String) (ps' : PermissionService) (key id : String)
      → revoke ps target grant_id ≡ ok ps'
      → (is_given (lookup grant_id (grants_of ps (target_key target))) ≡ true)
        × (lookup id (grants_of ps' key) ≡ (
            if str_eq (target_key target) key && str_eq grant_id id
            then none
            else lookup id (grants_of ps key)))
        × (ps'.nodes ≡ ps.nodes)
  unfolding revoke
  revoke-removes target grant_id ps' key id is_ok =
      let tkey = target_key target in
      let (gs, (found, (same, given))) =
        revoke_in-ok ps ps' tkey grant_id (lookup tkey ps.grants) is_ok in
      let held : grants_of ps tkey ≡ gs = grants_of-found tkey gs found in
      (
        subst (λ z. is_given (lookup grant_id z) ≡ true) (sym held) given,
        ap (λ z. lookup id (grants_of z key)) (sym same)
            ∙ ap (lookup id) (grants_of-put_remaining ps tkey key (delete grant_id gs))
            ∙ elim (Bool-cases (str_eq tkey key)) [
              | inl here ↦
                  let at_key : lookup id gs ≡ lookup id (grants_of ps key) =
                    ap (lookup id) (sym held ∙ ap (grants_of ps) ((eq_iff tkey key).0 here)) in
                  rw (here, lookup-delete grant_id id gs, at_key) refl
              | inr elsewhere ↦ rw elsewhere refl
            ],
        ap (λ z. z.nodes) (sym same) ∙ nodes-put_remaining ps tkey (delete grant_id gs),
      )
