-- ===== src/Plan/Compile/Endpoints.antt =====
-- The endpoints of a valid conversation pass the checks of a plan, if its names are identifiers.
use colloq.Prelude.{
  String, ◌≡◌, refl, sym, ap, ◌∙◌, subst, Option, none, some, List, [], ◌∷◌, ◌++◌, map, true, ◌==◌,
  Bool-cases, inl, inr, All, All_map, All_of_Memᴰ, All-Memᴰ, Memᴰ, Memᴰ-map, Memᴰ_of_map, map-map,
}
use colloq.Prelude.Maps.{Map, values}
use colloq.Conversation as Conversation
use colloq.Conversation.{Conversation, GlobalState, successors}
use colloq.Validate.Spec.{
  IsValid, StateOk, Branch, FailureEdge, scope, role_ids, state_ids, IsNodup,
}
use colloq.Validate.Targets.{fail_declared}
use colloq.Project.{id, project_state, endpoint_for}
use colloq.Machine.Find.{id-project_state}
use colloq.Plan.Identity.{valid_id}
use colloq.Plan.Verify.{endpoint_successors, endpoint_peer}
use colloq.Plan.Checked as Checked
use colloq.Plan.Checked.{PeerOk, EndpointOk}

-- The names of a conversation are identifiers, as a plan wants them.
pub record IsNamed {ℓ} {V : Type ℓ} (c : Conversation V) : Type ℓ where
  pub module_ : valid_id c.module_.id ≡ true
  pub roles : All (λ r. valid_id r ≡ true) (role_ids c)
  pub states : All (λ s. valid_id s ≡ true) (state_ids c)

-- Projection keeps where a state leads.
endpoint_successors-project_state :
    (s : GlobalState) (role : String) → endpoint_successors (project_state s role) ≡ successors s
unfolding endpoint_successors project_state successors
endpoint_successors-project_state (GlobalState.send i from to m n d f) role =
    elim (Bool-cases (from == role)) [ inl e ↦ rw e refl | inr e ↦ rw e refl ]
endpoint_successors-project_state (GlobalState.choice i chooser bs f) role =
    elim (Bool-cases (chooser == role)) [ inl e ↦ rw e refl | inr e ↦ rw e refl ]
endpoint_successors-project_state (GlobalState.cancel i from to what n f) role =
    elim (Bool-cases (from == role)) [ inl e ↦ rw e refl | inr e ↦ rw e refl ]
endpoint_successors-project_state (GlobalState.end i) role = refl
endpoint_successors-project_state (GlobalState.fail i f) role = refl

All_append {ℓ κ} :
    {A : Type ℓ} (P : A → Type κ) (xs ys : List A) → All P xs → All P ys → All P (xs ++ ys)
All_append P [] ys h k = k
All_append P (x ∷ xs) ys h k = (h.0, All_append P xs ys h.1 k)

All-values {κ} : (P : String → Type κ) (m : Map String) → All (λ e. P e.1) m → All P (values m)
All-values P [] h = tt
All-values P (e ∷ m) h = (h.0, All-values P m h.1)

ids-project_state :
    (role : String) (ss : List GlobalState)
    → map (λ s. id (project_state s role)) ss ≡ map Conversation.id ss
ids-project_state role [] = refl
ids-project_state role (s ∷ ss) =
    ap (λ i. i ∷ map (λ t. id (project_state t role)) ss) (id-project_state s role)
    ∙ ap (λ t. Conversation.id s ∷ t) (ids-project_state role ss)

module _ {ℓ} {V : Type ℓ} (c : Conversation V) (v : IsValid c) where
  edges_lead :
      (f : Map String) → All (FailureEdge (scope c)) f → All (λ t. Memᴰ t (state_ids c)) (values f)
  edges_lead f h =
      All-values (λ t. Memᴰ t (state_ids c)) f
        (All_map (FailureEdge (scope c)) (λ e. Memᴰ e.1 (state_ids c))
          (λ e k. fail_declared c e.1 e.0 k.1) f h)

  successors-declared :
      (s : GlobalState) → StateOk (scope c) s → All (λ t. Memᴰ t (state_ids c)) (successors s)
  unfolding successors
  successors-declared (GlobalState.send i from to m n d f) ok = (ok.1.1.0, edges_lead f ok.1.1.1)
  successors-declared (GlobalState.choice i chooser bs f) ok =
      All_append (λ t. Memᴰ t (state_ids c)) (values bs) (values f)
        (All-values (λ t. Memᴰ t (state_ids c)) bs
          (All_map (Branch (scope c)) (λ e. Memᴰ e.1 (state_ids c)) (λ e k. k.1) bs ok.1.1.0))
        (edges_lead f ok.1.1.1)
  successors-declared (GlobalState.cancel i from to what n f) ok = (ok.1.1.0, edges_lead f ok.1.1.1)
  successors-declared (GlobalState.end i) ok = tt
  successors-declared (GlobalState.fail i failure) ok = tt

  peer-known :
      (s : GlobalState) (role : String)
      → StateOk (scope c) s
      → PeerOk (role_ids c) (endpoint_peer (project_state s role))
  unfolding endpoint_peer project_state
  peer-known (GlobalState.send i from to m n d f) role ok = elim (Bool-cases (from == role)) [
    | inl e ↦ rw e ok.0.1.0
    | inr e ↦ rw e ok.0.0
  ]
  peer-known (GlobalState.choice i chooser bs f) role ok = elim (Bool-cases (chooser == role)) [
    | inl e ↦ rw e tt
    | inr e ↦ rw e ok.0
  ]
  peer-known (GlobalState.cancel i from to what n f) role ok = elim (Bool-cases (from == role)) [
    | inl e ↦ rw e ok.0.1.0
    | inr e ↦ rw e ok.0.0
  ]
  peer-known (GlobalState.end i) role ok = tt
  peer-known (GlobalState.fail i failure) role ok = tt

  -- The endpoint of each role has the states of the conversation.
  ids-endpoint_for : (role : String) → map id (endpoint_for c role).states ≡ state_ids c
  unfolding endpoint_for
  ids-endpoint_for role =
      sym (map-map id (λ s. project_state s role) c.states) ∙ ids-project_state role c.states

  peer_in :
      (rs : List String) (o : Option String)
      → ((k : String) → Memᴰ k (role_ids c) → Memᴰ k rs)
      → PeerOk (role_ids c) o
      → PeerOk rs o
  peer_in rs none f h = tt
  peer_in rs (some k) f h = f k h

  state-Ok :
      (n : IsNamed c) (role : String) (rs : List String) (s : GlobalState)
      → ((k : String) → Memᴰ k (role_ids c) → Memᴰ k rs)
      → Memᴰ s c.states
      → Checked.StateOk rs (state_ids c) (project_state s role)
  state-Ok n role rs s f m =
      let ok = All-Memᴰ (StateOk (scope c)) c.states v.declared.states m in
      record {
        named =
            ap valid_id (id-project_state s role)
            ∙ All-Memᴰ (λ i. valid_id i ≡ true) (state_ids c) n.states
                (Memᴰ-map Conversation.id s c.states m);
        targets =
            subst (All (λ t. Memᴰ t (state_ids c))) (sym (endpoint_successors-project_state s role))
              (successors-declared s ok);
        peer = peer_in rs (endpoint_peer (project_state s role)) f (peer-known s role ok);
      }

  pub endpoint_for-Ok :
      (n : IsNamed c) (role : String) (rs : List String)
      → Memᴰ role (role_ids c)
      → ((k : String) → Memᴰ k (role_ids c) → Memᴰ k rs)
      → EndpointOk c.module_.id rs (endpoint_for c role)
  unfolding endpoint_for
  endpoint_for-Ok n role rs m f = record {
    format = refl;
    named = All-Memᴰ (λ i. valid_id i ≡ true) (role_ids c) n.roles m;
    starts = All-Memᴰ (λ i. valid_id i ≡ true) (state_ids c) n.states v.declared.initial;
    same = refl;
    distinct = subst IsNodup (sym (ids-endpoint_for role)) v.declared.distinct;
    initial = subst (Memᴰ c.initial) (sym (ids-endpoint_for role)) v.declared.initial;
    states =
        All_of_Memᴰ (Checked.StateOk rs (map id (endpoint_for c role).states))
          (endpoint_for c role).states
          (λ s x.
            let (t, y, p) = Memᴰ_of_map (λ t. project_state t role) s c.states x in
            subst (λ ids. Checked.StateOk rs ids s) (sym (ids-endpoint_for role))
              (subst (Checked.StateOk rs (state_ids c)) p (state-Ok n role rs t f y)));
  }
