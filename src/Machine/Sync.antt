-- ===== src/Machine/Sync.antt =====
-- What one machine emits and what the other takes.
use colloq.Prelude.{
  String, ◌≡◌, sym, ◌∙◌, ap, subst, inl, inr, Option, some, Memᴰ, ◌==◌, ok, eq_refl, eq_iff,
  eqb_of_eq, ok_inj, ok≢err, Option-cases, arith, true, ◌&&◌,
}
use colloq.Prelude.Maps.{Map, lookup}
use colloq.Conversation as Conversation
use colloq.Conversation.{Conversation, GlobalState}
use colloq.Project.{EndpointState, project_state}
use colloq.Project.Duality.{Dual}
use colloq.Trace.Steps.{Step, sent, chosen, cancelled}
use colloq.Trace.{Frame, data_, select, cancel}
use colloq.Machine.{
  Machine, WireEnvelope, wire_format, state, next_sequence, emit, data_from, select_from, selected,
  cancel_from, emit_data, emit_select, emit_cancel, validate_envelope, accepts, accept,
}
use colloq.Machine.Find.{Follows}

all_same : (a b c : String) → (a == a && b == b && c == c) ≡ true
all_same a b c = simp eq_refl

module _ {ℓ} {V : Type ℓ} where
  -- One of the calls by which a machine emits an envelope.
  pub data Emits (m : Machine) (e : WireEnvelope V) (n : Machine) : Type ℓ where
    data_call : (payload : V) → emit_data m payload ≡ ok (e, n) → Emits m e n
    select_call : (label : String) → emit_select m label ≡ ok (e, n) → Emits m e n
    cancel_call : emit_cancel m ≡ ok (e, n) → Emits m e n

  -- What a role may send at a state of its machine, and where that leads.
  pub data Sends (role : String) : EndpointState → Frame V → String → Type ℓ where
    sends :
        {i to message next : String} {d : Option String} {f : Map String} {payload : V}
        → Sends role
            (EndpointState.send i to message next d f)
            (data_ role to message (some payload))
            next
    selects :
        {i label next : String} {branches f : Map String}
        → lookup label branches ≡ some next
        → Sends role (EndpointState.select i branches f) (select role label) next
    cancels :
        {i to what next : String} {f : Map String}
        → Sends role (EndpointState.send_cancel i to what next f) (cancel role to what) next

  -- An emitted envelope is made by `emit`, from what the state allows.
  abbrev Made : Machine → EndpointState → WireEnvelope V × Machine → Type ℓ
  Made m s r =
      (frame : Frame V) × (next : String) × Sends m.endpoint.role s frame next
      × (r ≡ emit m frame next)

  data_from-Made :
      (m : Machine) (payload : V) (s : EndpointState) (r : WireEnvelope V × Machine)
      → data_from m payload s ≡ ok r
      → Made m s r
  unfolding data_from
  data_from-Made m payload (EndpointState.send i to message next d f) r h =
      (data_ m.endpoint.role to message (some payload), next, Sends.sends, sym (ok_inj h))
  data_from-Made m payload _ r h = cc

  select_from-Made :
      (m : Machine) (label : String) (s : EndpointState) (r : WireEnvelope V × Machine)
      → select_from m label s ≡ ok r
      → Made m s r
  unfolding select_from
  select_from-Made m label (EndpointState.select i branches f) r h =
      elim (Option-cases (lookup label branches)) [
        | inl e ↦ absurd (ok≢err (sym h ∙ ap (selected m label) e))
        | inr (next, e) ↦ (
          select m.endpoint.role label,
          next,
          Sends.selects e,
          sym (ok_inj (sym (ap (selected m label) e) ∙ h)),
        )
      ]
  select_from-Made m label _ r h = cc

  cancel_from-Made :
      (m : Machine) (s : EndpointState) (r : WireEnvelope V × Machine)
      → cancel_from m s ≡ ok r
      → Made m s r
  unfolding cancel_from
  cancel_from-Made m (EndpointState.send_cancel i to what next f) r h =
      (cancel m.endpoint.role to what, next, Sends.cancels, sym (ok_inj h))
  cancel_from-Made m _ r h = cc

  pub Emits-Made :
      {m n : Machine} {e : WireEnvelope V} (s : EndpointState)
      → state m ≡ some s
      → Emits m e n
      → Made m s (e, n)
  unfolding emit_data emit_select emit_cancel
  Emits-Made {m} {n} {e} s at (data_call payload h) =
      data_from-Made m payload s (e, n) (rw (at, emit_data) at h)
  Emits-Made {m} {n} {e} s at (select_call label h) =
      select_from-Made m label s (e, n) (rw (at, emit_select) at h)
  Emits-Made {m} {n} {e} s at (cancel_call h) =
      cancel_from-Made m s (e, n) (rw (at, emit_cancel) at h)

  -- The dual state takes what is sent, and leads to the same state.
  pub accepts-Sends :
      (a b : String) (s t : EndpointState) (frame : Frame V) (next : String)
      → Dual a b s t
      → Sends a s frame next
      → accepts b t frame ≡ some next
  unfolding accepts
  accepts-Sends a b _ _ frame next (Dual.sends {m}) Sends.sends = rw (all_same a b m)
  accepts-Sends a b s t frame next Dual.selects (Sends.selects e) = rw (eq_refl a) e
  accepts-Sends a b s t frame next (Dual.cancels {s = what}) Sends.cancels = rw (all_same a b what)
  accepts-Sends a b _ _ frame next Dual.receives x = elim x [ ]
  accepts-Sends a b _ _ frame next Dual.branches x = elim x [ ]
  accepts-Sends a b _ _ frame next Dual.is_cancelled x = elim x [ ]
  accepts-Sends a b _ _ frame next Dual.ends x = elim x [ ]
  accepts-Sends a b _ _ frame next Dual.fails x = elim x [ ]

  -- The tests of `validate_envelope`, in one.
  pub validate_envelope-ok :
      (m : Machine) (e : WireEnvelope V)
      → e.colloq_wire ≡ wire_format
      → e.conversation ≡ m.endpoint.conversation
      → e.conversation_identity ≡ m.conversation_identity
      → e.state ≡ m.current
      → e.sequence ≡ m.sequence
      → validate_envelope m e ≡ ok tt
  unfolding validate_envelope
  validate_envelope-ok m e w c i s n = rw (
    (eq_iff e.colloq_wire wire_format).1 w,
    (eq_iff e.conversation m.endpoint.conversation).1 c,
    (eq_iff e.conversation_identity m.conversation_identity).1 i,
    (eq_iff e.state m.current).1 s,
    eqb_of_eq n,
  )

  pub accept-ok :
      (m : Machine) (e : WireEnvelope V) (t : EndpointState) (next : String)
      → validate_envelope m e ≡ ok tt
      → state m ≡ some t
      → accepts m.endpoint.role t e.frame ≡ some next
      → accept m e ≡ ok (e.frame, record m { current = next; sequence = next_sequence m.sequence })
  unfolding accept
  accept-ok m e t next h s a = rw (h, s, a, accept)

-- The role that sends is the sender.
module _ (a i : String) where
  from_send :
      (to m n : String) (d : Option String) (f : Map String) (s : GlobalState)
      → EndpointState.send i to m n d f ≡ project_state s a
      → s ≡ GlobalState.send i a to m n d f
  unfolding project_state
  from_send to m n d f (GlobalState.send j from to' m' n' d' f') e = ground (arith, eq_iff from a)
  from_send to m n d f (GlobalState.choice j chooser bs g) e = ground arith
  from_send to m n d f (GlobalState.cancel j from to' what n' g) e = ground arith
  from_send to m n d f (GlobalState.end j) e = cc
  from_send to m n d f (GlobalState.fail j g) e = cc

  pub from_select :
      (bs f : Map String) (s : GlobalState)
      → EndpointState.select i bs f ≡ project_state s a
      → s ≡ GlobalState.choice i a bs f
  unfolding project_state
  from_select bs f (GlobalState.send j from to' m' n' d' f') e = ground arith
  from_select bs f (GlobalState.choice j chooser bs' g) e = ground (arith, eq_iff chooser a)
  from_select bs f (GlobalState.cancel j from to' what n' g) e = ground arith
  from_select bs f (GlobalState.end j) e = cc
  from_select bs f (GlobalState.fail j g) e = cc

  from_cancel :
      (to what n : String) (f : Map String) (s : GlobalState)
      → EndpointState.send_cancel i to what n f ≡ project_state s a
      → s ≡ GlobalState.cancel i a to what n f
  unfolding project_state
  from_cancel to what n f (GlobalState.send j from to' m' n' d' f') e = ground arith
  from_cancel to what n f (GlobalState.choice j chooser bs' g) e = ground arith
  from_cancel to what n f (GlobalState.cancel j from to' what' n' g) e =
      ground (arith, eq_iff from a)
  from_cancel to what n f (GlobalState.end j) e = cc
  from_cancel to what n f (GlobalState.fail j g) e = cc

module _ {ℓ} {V : Type ℓ} (c : Conversation V) where
  -- Two machines of one plan at one point of the conversation.
  pub record Synced (a b : String) (x y : Machine) : Type 0 where
    pub left : Follows c a x
    pub right : Follows c b y
    pub identity : x.conversation_identity ≡ y.conversation_identity
    pub current : x.current ≡ y.current
    pub sequence : x.sequence ≡ y.sequence

  pub Synced-sym : {a b : String} {x y : Machine} → Synced a b x y → Synced b a y x
  Synced-sym h = record {
    left = h.right;
    right = h.left;
    identity = sym h.identity;
    current = sym h.current;
    sequence = sym h.sequence;
  }

  -- What a role may send at a state is a step of the conversation.
  pub Step-Sends :
      (a : String) (s : GlobalState) (t : EndpointState) (frame : Frame V) (next : String)
      → Memᴰ s c.states
      → t ≡ project_state s a
      → Sends a t frame next
      → Step c (Conversation.id s) frame next
  unfolding Conversation.id
  Step-Sends a s _ frame next x e (Sends.sends {i} {to} {message} {d} {f}) =
      let p = from_send a i to message next d f s e in
      rw (ap Conversation.id p) (sent (subst (λ u. Memᴰ u c.states) p x))
  Step-Sends a s _ frame next x e (Sends.selects {i} {label} {branches} {f} l) =
      let p = from_select a i branches f s e in
      rw (ap Conversation.id p) (chosen (subst (λ u. Memᴰ u c.states) p x) l)
  Step-Sends a s _ frame next x e (Sends.cancels {i} {to} {what} {f}) =
      let p = from_cancel a i to what next f s e in
      rw (ap Conversation.id p) (cancelled (subst (λ u. Memᴰ u c.states) p x))
