-- ===== src/Jev/Binds.antt =====
-- `bind` accepts just the bindings that fit.
use Prim.Native.String.{compare}
use colloq.Prelude.{
  String, ◌≡◌, refl, sym, ap, ◌∙◌, subst, ◌↔◌, Option, none, some, List, [], ◌++◌, ◌==◌, eq_iff,
  find?, find?-some, find?-Memᴰ, Memᴰ_of_get_elem?, append-eq-nil, Memᴰ, ok, >>=-eq-ok, ok_inj,
}
use colloq.Prelude.Maps.{Map, keys}
use colloq.Prelude.Sets.{insert_all}
use colloq.Conversation.{Conversation, GlobalState, id}
use colloq.Trace.Walk.{state_unique}
use colloq.Validate.{validate, verdict}
use colloq.Validate.Correct.{validate_iff}
use colloq.Validate.Reachability.{Diagnostic}
use colloq.Validate.Spec.{IsValid}
use package.colloq.Jev.{
  Floats, JevBinding, BoundChoice, choice_of, binding_diagnostics, choice_diagnostics, bind_at,
  bind,
}
use package.colloq.Jev.Bound.{Bound, binding_diagnostics-nil, choice_diagnostics-nil, verdict-ok}

module _ {V F : Type 0} (floats : Floats F) where
  -- What a state has to be, for the rest of `bind` to return.
  record Chosen (b : JevBinding V F) (ds : List Diagnostic) (o : Option GlobalState)
      (x : BoundChoice V F) : Type 0 where
    pub i : String
    pub labels : Map String
    pub edges : Map String
    pub state : o ≡ some (GlobalState.choice i x.chooser labels edges)
    pub set : x.branches ≡ insert_all compare (keys labels) []
    pub clean : ds ++ choice_diagnostics floats b x.branches ≡ []
    pub same : x.binding ≡ b

  bind_at-Chosen :
      (b : JevBinding V F) (ds : List Diagnostic) (o : Option GlobalState) (x : BoundChoice V F)
      → bind_at floats b ds o (choice_of o) ≡ ok x
      → Chosen b ds o x
  unfolding bind_at
  bind_at-Chosen b ds none x h = cc
  bind_at-Chosen b ds (some (GlobalState.send i from to m n d f)) x h = cc
  bind_at-Chosen b ds (some (GlobalState.cancel i from to what n f)) x h = cc
  bind_at-Chosen b ds (some (GlobalState.end i)) x h = cc
  bind_at-Chosen b ds (some (GlobalState.fail i f)) x h = cc
  bind_at-Chosen b ds (some (GlobalState.choice i chooser labels edges)) x h =
      let set = insert_all compare (keys labels) [] in
      let (u, e, r) = >>=-eq-ok (verdict (ds ++ choice_diagnostics floats b set)) _ h in
      let same = ok_inj r in
      record {
        i = i;
        labels = labels;
        edges = edges;
        state =
            ap (λ (y : BoundChoice V F). some (GlobalState.choice i y.chooser labels edges)) same;
        set = ap (λ (y : BoundChoice V F). y.branches) (sym same);
        clean =
            ap (λ (y : BoundChoice V F). ds ++ choice_diagnostics floats b y.branches) (sym same)
            ∙ (verdict-ok (ds ++ choice_diagnostics floats b set)).0 e;
        same = ap (λ (y : BoundChoice V F). y.binding) (sym same);
      }

  module _ (c : Conversation V) (b : JevBinding V F) (x : BoundChoice V F) where
    Chosen-Bound :
        Chosen b
          (binding_diagnostics floats c.module_.id b)
          (find? (λ s. id s == b.state) c.states)
          x
        → Bound floats c b x
    unfolding id
    Chosen-Bound k =
        let (fields, options) =
          append-eq-nil (binding_diagnostics floats c.module_.id b) _ k.clean in
        let (n, at, fits) = find?-some (λ s. id s == b.state) c.states k.state in
        let named : k.i ≡ b.state = (eq_iff k.i b.state).0 fits in
        record {
          fields = (binding_diagnostics-nil floats c.module_.id b).0 fields;
          labels = k.labels;
          edges = k.edges;
          state =
              subst (λ i. Memᴰ (GlobalState.choice i x.chooser k.labels k.edges) c.states) named
                (Memᴰ_of_get_elem? c.states n at);
          set = k.set;
          options = (choice_diagnostics-nil floats b x.branches).0 options;
          same = k.same;
        }

    found-state :
        IsValid c
        → (s : GlobalState) → Memᴰ s c.states
        → id s ≡ b.state
        → find? (λ s. id s == b.state) c.states ≡ some s
    found-state v s m e =
        let (t, found) =
          find?-Memᴰ (λ s. id s == b.state) s c.states m ((eq_iff (id s) b.state).1 e) in
        let (n, at, fits) = find?-some (λ s. id s == b.state) c.states found in
        found
        ∙ ap some (
            state_unique c v t s (Memᴰ_of_get_elem? c.states n at) m
              ((eq_iff (id t) b.state).0 fits ∙ sym e))

    -- `bind` returns a choice for a binding just when the conversation is valid and the choice
    -- is bound in the sense of `Bound`: the fields of the binding are well formed, its state is
    -- a choice of the conversation, whose chooser and labels are returned, its options are
    -- labels, each label but the escalation is an option, and the escalation is a label.
    pub bind_iff : (bind floats c b ≡ ok x) ↔ (IsValid c × Bound floats c b x)
    unfolding bind bind_at id
    bind_iff = (
      λ h.
          let (u, e, r) = >>=-eq-ok (validate c) _ h in
          ((validate_iff c).0 e, Chosen-Bound (bind_at-Chosen b _ _ x r)),
      λ (v, k).
          rw
            (
              (validate_iff c).1 v,
              found-state v (GlobalState.choice b.state x.chooser k.labels k.edges) k.state refl,
              (binding_diagnostics-nil floats c.module_.id b).1 k.fields,
              sym k.set,
              (choice_diagnostics-nil floats b x.branches).1 k.options,
              sym k.same,
            )
            refl,
    )
