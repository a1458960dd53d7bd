-- ===== src/Examples/Receivers.antt =====
-- The mock receiver's log at concrete inputs.
use web_hook_project.Prelude.{List, [], ◌∷◌, ◌≡◌, codes, Text}
use web_hook_project.Prelude.Int.{pos}
use web_hook_project.MockReceiver.{CapturedRequest, new_ring_buffer, get_all}
use web_hook_project.MockReceiver.Log.{add_all, newest, ring_buffer_lem}

abbrev captured : Text → CapturedRequest
captured id = record {
  id = id;
  url = codes "/";
  method = codes "POST";
  headers = [];
  signature = [];
  webhook_id = [];
  body = [];
  received_at = 3;
}

abbrev three_requests : List CapturedRequest
three_requests = captured (codes "a") ∷ captured (codes "b") ∷ captured (codes "c") ∷ []

ring_buffer_lem_example :
    get_all (add_all three_requests (new_ring_buffer (pos 2)))
    ≡ newest (new_ring_buffer (pos 2)).capacity three_requests
ring_buffer_lem_example = ring_buffer_lem (pos 2) three_requests
