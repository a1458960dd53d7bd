-- ===== src/WebhookClient/Requests.antt =====
-- sdk/go/webhookclient/client.go and types.go: the client's calls. The HTTP client, the parsing of
-- URLs and encoding/json are parameters.
use Prim.Native.String.{String}
use web_hook_project.Prelude.{
  ℕ, Bool, ◌&&◌, ◌||◌, List, [], ◌∷◌, ◌++◌, Option, none, some, Text, codes, ◌==◌, text_eq, nat_eq,
  if◌then◌else◌, leb, ltb,
}
use web_hook_project.Prelude.Errors.{Error, message, wrap, Result, ok, err}
use web_hook_project.Prelude.Int.{ℤ, is_positive}
use web_hook_project.Prelude.Decimal.{decimal_ℤ}
use web_hook_project.Domain.{Time, is_empty}
use web_hook_project.WebhookClient.Signature.{trim_space}

-- Client, but for the HTTP client and its timeout.
pub record Client : Type 0 where
  pub base_url : Text
  pub tenant_id : Text
  pub api_key : Text

-- strings.TrimRight(s, "/")
unfoldable pub trim_slashes : Text → Text
trim_slashes [] = []
trim_slashes (c ∷ s) =
    let rest = trim_slashes s in if c == b'/' && is_empty rest then [] else c ∷ rest

-- New, and WithAPIKey
abbrev pub with_options : List (Client → Client) → Client → Client
with_options [] c = c
with_options (opt ∷ opts) c = with_options opts (opt c)

unfoldable pub new_client : Text → Text → List (Client → Client) → Client
new_client base_url tenant_id opts =
    with_options opts
      (record { base_url = trim_slashes base_url; tenant_id = tenant_id; api_key = [] })

abbrev pub with_api_key : Text → Client → Client
with_api_key key c = record c { api_key = key }

pub record PublishResult : Type 0 where
  pub id : Text
  pub status : Text
  pub created_at : Time

pub record ReplayResult : Type 0 where
  pub status : Text
  pub replayed_count : ℤ

pub record ApiError : Type 0 where
  pub status_code : ℕ
  pub message : Text
  pub body : Text

-- A request as it is sent, and a reply: what reading its body gives.
pub record Sent : Type 0 where
  pub method : Text
  pub url : Text
  pub headers : List (Text × Text)
  pub body : Text

pub record Reply : Type 0 where
  pub status_code : ℕ
  pub body : Result Text

-- What a call gives: a result, an error of the API, or another error.
pub data Answer (A : Type 0) : Type 0 where
  given : A → Answer A
  api_failed : ApiError → Answer A
  failed : Error → Answer A

-- The payload that Publish hands to json.Marshal: bytes that are JSON, other bytes, or another value,
-- by its encoding.
pub data Payload : Type 0 where
  raw_message bytes value : Text → Payload

-- What the caller gives: bytes, or another value.
pub data GivenPayload : Type 0 where
  byte_slice other : Text → GivenPayload

abbrev pub if_full : Text → List (Text × Text) → List (Text × Text)
if_full s headers = if is_empty s then [] else headers

abbrev pub authorization : Client → List (Text × Text)
authorization c = if_full c.api_key ((codes "Authorization", codes "Bearer " ++ c.api_key) ∷ [])

abbrev pub json_headers : Client → List (Text × Text)
json_headers c =
    (codes "Content-Type", codes "application/json")
    ∷ (codes "X-Tenant-ID", c.tenant_id)
    ∷ authorization c

abbrev pub payload_of : (Text → Bool) → GivenPayload → Payload
payload_of is_json (byte_slice b) = if is_json b then raw_message b else bytes b
payload_of is_json (other v) = value v

abbrev pub publish_request : Client → Text → Text → Sent
publish_request c key body = record {
  method = codes "POST";
  url = c.base_url ++ codes "/api/v1/events";
  headers = json_headers c ++ if_full key ((codes "X-Idempotency-Key", key) ∷ []);
  body = body;
}

-- `create_err` is the error of NewRequestWithContext, and `send` the HTTP client on a world `S`.
module _ {S : Type 0} (send : Sent → S → Result Reply × S) (create_err : Sent → Option Error)
    (error_of : Text → Option Text) where
  -- parseAPIError; `error_of` gives the field `error` of a body that can be read.
  unfoldable pub parse_api_error : ℕ → Text → ApiError
  parse_api_error status body = record {
    status_code = status;
    message = elim (error_of body) [
      | some text ↦ if is_empty text then trim_space body else text
      | none ↦ trim_space body
    ];
    body = body;
  }

  -- What the calls do with a reply.
  abbrev pub conclude : {A : Type 0} → String → (Text → Result A) → Result Reply → Answer A
  conclude text decode (err e) = failed e
  conclude text decode (ok reply) = elim reply.body [
    | err e ↦ failed (wrap "failed to read response body" e)
    | ok body ↦
        if ltb reply.status_code 200 || leb 300 reply.status_code
        then api_failed (parse_api_error reply.status_code body)
        else (elim (decode body) [ err e ↦ failed (wrap text e) | ok a ↦ given a ])
  ]

  unfoldable pub call : {A : Type 0} → String → (Text → Result A) → Sent → S → Answer A × S
  call text decode r s = elim (create_err r) [
    | some e ↦ (failed (wrap "failed to create HTTP request" e), s)
    | none ↦ let (reply, s') = send r s in (conclude text decode reply, s')
  ]

  module _ (is_json : Text → Bool) (marshal_publish : Text → Payload → Result Text)
      (unmarshal_result : Text → Result PublishResult) where
    -- Publish; `key` is that of WithIdempotencyKey, or empty.
    unfoldable pub publish : Client → Text → GivenPayload → Text → S → Answer PublishResult × S
    publish c event_type payload key s =
        if is_empty event_type
        then (failed (message "eventType is required"), s)
        else (elim (marshal_publish event_type (payload_of is_json payload)) [
          | err e ↦ (failed (wrap "failed to marshal publish payload" e), s)
          | ok body ↦
              call "failed to decode publish response" unmarshal_result (publish_request c key body)
                s
        ])

  abbrev pub query_part : Text → ℤ → List Text
  query_part name n = if is_positive n then (name ++ (b'=' ∷ decimal_ℤ n)) ∷ [] else []

  abbrev pub with_query : Text → List Text → Text
  with_query url [] = url
  with_query url (p ∷ []) = url ++ (b'?' ∷ p)
  with_query url (p ∷ p' ∷ _) = url ++ (b'?' ∷ (p ++ (b'&' ∷ p')))

  -- The encoded query has its names in order.
  abbrev pub dlq_url : Text → ℤ → ℤ → Text
  dlq_url url limit offset =
      with_query url (query_part (codes "limit") limit ++ query_part (codes "offset") offset)

  -- ListDLQ; `parse_url` is url.Parse of a URL without a query, back as text. `A` is []DLQEvent.
  unfoldable pub list_dlq :
      {A : Type 0} → (Text → Result Text) → (Text → Result A) → Client → ℤ → ℤ → S → Answer A × S
  list_dlq parse_url decode c limit offset s =
      elim (parse_url (c.base_url ++ codes "/api/v1/dlq")) [
        | err e ↦ (failed (wrap "invalid DLQ URL" e), s)
        | ok url ↦
            call "failed to decode DLQ events" decode
              (record {
                method = codes "GET";
                url = dlq_url url limit offset;
                headers =
                    (codes "Accept", codes "application/json")
                    ∷ (codes "X-Tenant-ID", c.tenant_id)
                    ∷ authorization c;
                body = [];
              })
              s
      ]

  unfoldable pub replay_dlq :
      (List Text → Result Text)
      → (Text → Result ReplayResult)
      → Client
      → List Text
      → S
      → Answer ReplayResult × S
  replay_dlq marshal decode c [] s = (failed (message "eventIDs cannot be empty"), s)
  replay_dlq marshal decode c (id ∷ ids) s = elim (marshal (id ∷ ids)) [
    | err e ↦ (failed (wrap "failed to marshal replay request" e), s)
    | ok body ↦
        call "failed to decode replay response" decode
          (record {
            method = codes "POST";
            url = c.base_url ++ codes "/api/v1/dlq/replay";
            headers = json_headers c;
            body = body;
          })
          s
  ]
