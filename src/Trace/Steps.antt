-- ===== src/Trace/Steps.antt =====
-- The global meaning of a conversation: which frame leads from which state to which.
use colloq.Prelude.{String, ◌≡◌, Option, some, List, [], ◌∷◌, Memᴰ}
use colloq.Prelude.Maps.{Map, lookup}
use colloq.Conversation.{Conversation, GlobalState, id, failure_target}
use colloq.Validate.Spec.{role_ids}
use colloq.Trace.{Frame, data_, select, cancel, fault}

module _ {ℓ} {V : Type ℓ} (c : Conversation V) where
  pub data Step : String → Frame V → String → Type ℓ where
    sent :
        {i from to message next : String} {deadline : Option String} {f : Map String}
        {payload : Option V}
        → Memᴰ (GlobalState.send i from to message next deadline f) c.states
        → Step i (data_ from to message payload) next
    chosen :
        {i chooser label next : String} {branches f : Map String}
        → Memᴰ (GlobalState.choice i chooser branches f) c.states
        → lookup label branches ≡ some next
        → Step i (select chooser label) next
    cancelled :
        {i from to what next : String} {f : Map String}
        → Memᴰ (GlobalState.cancel i from to what next f) c.states
        → Step i (cancel from to what) next
    failed :
        {i observer failure next : String} {s : GlobalState}
        → Memᴰ s c.states
        → id s ≡ i
        → Memᴰ observer (role_ids c)
        → failure_target s failure ≡ some next
        → Step i (fault observer failure) next

  -- A sequence of steps.
  pub data Run : String → List (Frame V) → String → Type ℓ where
    done : {i : String} → Run i [] i
    more :
        {i j k : String} {frame : Frame V} {frames : List (Frame V)}
        → Step i frame j
        → Run j frames k
        → Run i (frame ∷ frames) k
