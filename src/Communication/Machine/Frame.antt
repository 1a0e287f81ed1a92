-- ===== src/Communication/Machine/Frame.antt =====
-- core/communication: what the parts of a state's work leave alone.
use openkit_native.Prelude.{ℕ, List, [], false, refl, ◌∙◌, ◌∷◌, ◌≡◌}
use openkit_native.Communication.Context.{
  Context, Surroundings, clear_all_session_data, disable_capture, disable_capture_and_clear,
  remove_session, replace_session,
}
use openkit_native.Communication.States.{forget_session}
use openkit_native.Objects.Session.{Session, enable_capture, end_session}
use openkit_native.Communication.States.Flush.{enable_all, end_all}
use openkit_native.Caching.Cache
use openkit_native.Caching.Cache.{Cache}

-- The shutdown flag stays as it is, and so does what was decided about the states.
pub record Keeps (c d : Context) : Type 0 where
  pub current : d.current_state ≡ c.current_state
  pub next : d.next_state ≡ c.next_state
  pub flag : d.is_shutdown ≡ c.is_shutdown

pub Keeps-same : (c : Context) → Keeps c c
Keeps-same c = record { current = refl; next = refl; flag = refl }

pub Keeps-trans : {c d e : Context} → Keeps c d → Keeps d e → Keeps c e
Keeps-trans h k = record {
  current = k.current ∙ h.current;
  next = k.next ∙ h.next;
  flag = k.flag ∙ h.flag;
}

module _ (w : Surroundings) where
  pub disable-Keeps : (c : Context) → Keeps c (disable_capture_and_clear c)
  unfolding disable_capture_and_clear clear_all_session_data disable_capture
  disable-Keeps c = record { current = refl; next = refl; flag = refl }

  pub forget-Keeps : (s : Session) (c : Context) → Keeps c (forget_session w s c)
  unfolding forget_session remove_session
  forget-Keeps s c = record { current = refl; next = refl; flag = refl }

  pub enable_all-Keeps : (ss : List Session) (c : Context) → Keeps c (enable_all w ss c)
  unfolding enable_all
  enable_all-Keeps [] c = Keeps-same c
  enable_all-Keeps (s ∷ ss) c =
      let k =
        enable_all-Keeps ss
          (record c { sessions = replace_session (enable_capture s) c.sessions }) in
      record { current = k.current; next = k.next; flag = k.flag }

  pub end_all-Keeps : (ss : List Session) (c : Context) → Keeps c (end_all w ss c)
  unfolding end_all
  end_all-Keeps [] c = Keeps-same c
  end_all-Keeps (s ∷ ss) c =
      let k =
        end_all-Keeps ss
          (record c { sessions = replace_session (end_session false s).session c.sessions }) in
      record { current = k.current; next = k.next; flag = k.flag }

  -- A session is sent and forgotten.
  pub sent-Keeps :
      (s : Session) (c : Context) (cache : Cache.Cache) (n : ℕ)
      → Keeps c (forget_session w s (record c { cache = cache; requests = n }))
  unfolding forget_session remove_session
  sent-Keeps s c cache n = record { current = refl; next = refl; flag = refl }
