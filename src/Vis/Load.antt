-- ===== src/Vis/Load.antt =====
-- `loadJSON` of blockchain_vis.js, and the page that calls it. The browser runs the listener at each
-- change of the state of the request; `JSON.parse` is the parameter `parse`: `none` is the SyntaxError
-- that it throws on a text that is not JSON.
use prism_rust_vivek.Prelude.{ℕ, Option, none, some, List, [], ◌∷◌, ◌==◌, if◌then◌else◌, nat_eq}
use prism_rust_vivek.Text.{Text, text}
use prism_rust_vivek.Vis.Payload.{Payload}
use prism_rust_vivek.Vis.Render.{Call, Ending, handle_data}

pub record Xhr : Type 0 where
  pub ready_state : ℕ
  pub status : ℕ
  pub response_text : Text

-- `XMLHttpRequest.DONE`
abbrev pub done_state : ℕ
done_state = 4

-- What the listener causes: nothing, a handler runs, or `JSON.parse` throws.
pub data Reaction (E : Type 0) : Type 0 where
  silent : Reaction E
  handled : E → Reaction E
  syntax_error : Reaction E

module _ {J E : Type 0} (parse : Text → Option J) (success : Option (J → E))
    (error : Option (Xhr → E)) where
  unfoldable pub on_ready_state_change : Xhr → Reaction E
  on_ready_state_change xhr =
      if xhr.ready_state == done_state
      then if xhr.status == 200
        then elim success [
          | none ↦ silent
          | some succeed ↦ elim (parse xhr.response_text) [
            | none ↦ syntax_error
            | some value ↦ handled (succeed value)
          ]
        ]
        else elim error [ none ↦ silent | some failed ↦ handled (failed xhr) ]
      else silent

  -- The request of a path, and the reactions to the states that the browser reports.
  pub record Request : Type 0 where
    pub method : Text
    pub path : Text
    pub reactions : List (Reaction E)

  unfoldable pub react : List Xhr → List (Reaction E)
  unfolding on_ready_state_change
  react [] = []
  react (xhr ∷ states) = on_ready_state_change xhr ∷ react states

  unfoldable pub load_json : Text → List Xhr → Request
  unfolding react
  load_json path states = record { method = text "GET"; path = path; reactions = react states }

-- What `JSON.parse` returns: a payload, or a value of another shape.
pub data Json : Type 0 where
  shaped : Payload → Json
  misshaped : Json

-- What the page does: it draws, it runs `handle_data` on a value that is no payload, with an effect
-- that is not described here, or it logs the request.
pub data Shown : Type 0 where
  drawn : List Call × Ending → Shown
  undescribed : Shown
  logged : Xhr → Shown

abbrev pub handle_error : Xhr → Shown
handle_error xhr = logged xhr

abbrev pub handle_json : Json → Shown
handle_json (shaped payload) = drawn (handle_data payload)
handle_json misshaped = undescribed

-- `loadJSON("/blockchain.json", handle_data, handle_error)`
unfoldable pub page : (Text → Option Json) → List Xhr → List (Reaction Shown)
unfolding load_json
page parse states =
    (load_json parse (some handle_json) (some handle_error) (text "/blockchain.json")
      states).reactions
