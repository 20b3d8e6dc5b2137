-- ===== src/Codec/Emitted.antt =====
-- The dictionary of a conversation and what its machines emit.
use colloq.Prelude.{
  find?-some, find?-Memᴰ, ◌≡◌, refl, sym, ap, ◌∙◌, subst, String, Option, none, some, map, true,
  find?, ok, eq_iff, eq_refl, Memᴰ, Memᴰ-map, Memᴰ_of_map, Memᴰ-flat_map,
}
use colloq.Prelude.Maps.{keys, Memᴰ_of_lookup}
use colloq.Conversation.{Conversation, GlobalState}
use colloq.Validate.Spec.{IsValid, role_ids}
use colloq.Project.{EndpointState, id, project_state, endpoint_for, project_validated}
use colloq.Trace.{Frame, data_, select, cancel, fault}
use colloq.Plan.Wire.{WireOperation, WireTransition, Entry, state_entries, endpoint_entries}
use colloq.Plan.Wire.Table.{IsTable, entry_of}
use colloq.Machine.{Machine, WireEnvelope, wire_format, emit}
use colloq.Machine.Find.{Follows, state-Follows, id-project_state}
use colloq.Machine.Sync.{Emits, Emits-Made, Sends}
use colloq.Machine.Exchange.{role-endpoint_for}
use colloq.Codec.{
  Serializer, CompactEnvelope, CompactWireCodec, or_else, encode_json, operation_matches,
  transition_matches, carried, encode,
}

-- The operation that stands for a frame.
abbrev operation_of {ℓ} : {V : Type ℓ} → Frame V → WireOperation
operation_of (data_ from to message payload) = WireOperation.data_ from to message
operation_of (select by label) = WireOperation.select by label
operation_of (cancel from to scope) = WireOperation.cancel from to scope
operation_of (fault observer failure) = WireOperation.select observer failure

module _ {ℓ} {V : Type ℓ} where
  -- What a state allows to be sent is among its items, and the item matches the frame.
  Sends-entry :
      (role : String) (s : EndpointState) (f : Frame V) (next : String)
      → Sends role s f next
      → Memᴰ (id s, operation_of f) (state_entries role s)
        × (operation_matches (operation_of f) f ≡ true)
        × ((p : Option V) × (carried f ≡ ok p))
  unfolding state_entries operation_matches carried id
  Sends-entry role _ _ _ (Sends.sends {to} {message} {payload}) =
      (Memᴰ.head refl, rw (eq_refl role, eq_refl to, eq_refl message) refl, (some payload, refl))
  Sends-entry role _ _ _ (Sends.selects {i} {label} {next} {branches} e) = (
    Memᴰ-map (λ l. (i, WireOperation.select role l)) label (keys branches)
        (Memᴰ-map (λ (b : String × String). b.0) (label, next) branches
          (Memᴰ_of_lookup label next branches e)),
    rw (eq_refl role, eq_refl label) refl,
    (none, refl),
  )
  Sends-entry role _ _ _ (Sends.cancels {to} {what}) =
      (Memᴰ.head refl, rw (eq_refl role, eq_refl to, eq_refl what) refl, (none, refl))

encode-found {ℓ} :
    {V : Type ℓ} (json : Serializer (CompactEnvelope V)) (k : CompactWireCodec) (e : WireEnvelope V)
    (t : WireTransition) (p : Option V)
    → e.colloq_wire ≡ wire_format
    → e.conversation ≡ k.conversation
    → e.conversation_identity ≡ k.conversation_identity
    → find? (λ w. transition_matches w e) k.wire.transitions ≡ some t
    → carried e.frame ≡ ok p
    → encode json k e
      ≡ encode_json json (record { transition = t.id; sequence = e.sequence; payload = p })
unfolding encode or_else
encode-found json k e t p version conv iden found is_carried =
    rw
      (
        (eq_iff e.colloq_wire wire_format).1 version,
        (eq_iff e.conversation k.conversation).1 conv,
        (eq_iff e.conversation_identity k.conversation_identity).1 iden,
        found,
        is_carried,
      )
      refl

module _ {ℓ} {V : Type ℓ} (c : Conversation V) (v : IsValid c) where
  endpoint-Memᴰ :
      (role : String) → Memᴰ role (role_ids c) → Memᴰ (endpoint_for c role) (project_validated c)
  unfolding project_validated
  endpoint-Memᴰ role m =
      let (r, x, e) = Memᴰ_of_map (λ r. r.id) role c.roles m in
      subst (λ k. Memᴰ (endpoint_for c k) (project_validated c)) e
        (Memᴰ-map (λ r. endpoint_for c r.id) r c.roles x)

  state-Memᴰ :
      (role : String) (s : GlobalState) (a : Entry)
      → Memᴰ s c.states
      → Memᴰ a (state_entries role (project_state s role))
      → Memᴰ a (endpoint_entries (endpoint_for c role))
  unfolding endpoint_entries endpoint_for
  state-Memᴰ role s a m h =
      (Memᴰ-flat_map (state_entries role) a (map (λ t. project_state t role) c.states)).1
        (project_state s role, Memᴰ-map (λ t. project_state t role) s c.states m, h)

  -- Let a machine of a role of a valid conversation run its projected endpoint, and let a
  -- compact codec have the conversation name and identity of the machine and a transition table
  -- of the conversation's endpoints. For an envelope that the machine emits there is a
  -- transition that matches it and a payload that it carries, such that `encode` returns what
  -- writing them as JSON returns; so the codec itself never refuses it.
  pub encode-Emits :
      (json : Serializer (CompactEnvelope V)) (k : CompactWireCodec) (role : String)
      → Memᴰ role (role_ids c)
      → IsTable (project_validated c) k.wire.transitions
      → {m n : Machine} {e : WireEnvelope V} → Follows c role m
      → m.endpoint.conversation ≡ k.conversation
      → m.conversation_identity ≡ k.conversation_identity
      → Emits m e n
      → (t : WireTransition) × (p : Option V) × (transition_matches t e ≡ true)
        × (carried e.frame ≡ ok p)
        × (encode json k e
            ≡ encode_json json (record { transition = t.id; sequence = e.sequence; payload = p }))
  unfolding transition_matches emit
  encode-Emits json k role r table {m} {n} {e} h conv iden sent =
      let (s, ms, p, at) = state-Follows c v h in
      let (f, next, allowed, made) = Emits-Made (project_state s role) at sent in
      let allowed' =
        subst (λ u. Sends u (project_state s role) f next) (role-endpoint_for c role m h.machine)
          allowed in
      let (x, matches, (payload, is_carried)) =
        Sends-entry role (project_state s role) f next allowed' in
      let (t, mt, same) =
        Memᴰ_of_map entry_of (id (project_state s role), operation_of f) k.wire.transitions
          ((table.contents (id (project_state s role), operation_of f)).1
            (endpoint_for c role, endpoint-Memᴰ role r, state-Memᴰ role s _ ms x)) in
      let state_eq : t.state ≡ m.current = ap (λ a. a.0) same ∙ (id-project_state s role ∙ p) in
      let fits : transition_matches t (emit m f next).0 ≡ true =
        rw ((eq_iff t.state m.current).1 state_eq)
          (ap (λ o. operation_matches o f) (ap (λ a. a.1) same) ∙ matches) in
      let (u, found) =
        find?-Memᴰ (λ w. transition_matches w (emit m f next).0) t k.wire.transitions mt fits in
      let (_, _, u_fits) =
        find?-some (λ w. transition_matches w (emit m f next).0) k.wire.transitions found in
      subst
        (λ r.
          (w : WireTransition) × (q : Option V) × (transition_matches w r.0 ≡ true)
          × (carried r.0.frame ≡ ok q)
          × (encode json k r.0
              ≡ encode_json json
                  (record { transition = w.id; sequence = r.0.sequence; payload = q })))
        (sym made)
        (
          u,
          payload,
          u_fits,
          is_carried,
          encode-found json k (emit m f next).0 u payload refl conv iden found is_carried,
        )
