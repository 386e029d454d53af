-- ===== src/Provider/Api.antt =====
-- provider.go: the API provider. What it takes from net/http, net/url, io and encoding/json are
-- parameters; an error is its text.
pub mod Outcomes
pub mod Failing
pub mod Flags
use traefik_plugin_ipgeoloca.Base.{
  ℕ, ◌+◌, List, [], ◌∷◌, ◌++◌, Option, none, some, Bool, true, false, ◌==◌, ◌&&◌, ltb,
  if◌then◌else◌, length, take, Result, ok, err, ◌>>=◌,
}
use traefik_plugin_ipgeoloca.Base.Text.{Str, codes, str_eq, trim_space, index_byte, decimal}
use traefik_plugin_ipgeoloca.Base.Dict.{Dict, insert}
use traefik_plugin_ipgeoloca.Value.{Value, Entries, entry, end, object, str, find}
use traefik_plugin_ipgeoloca.Value.Floats.{FloatOps}
use traefik_plugin_ipgeoloca.Config.{default_api_endpoint}
use traefik_plugin_ipgeoloca.Fields.{FieldDef, Formatter}
use traefik_plugin_ipgeoloca.Fields.Extract.{map_record, extract_fields}
use traefik_plugin_ipgeoloca.Provider.{Lookup, derive_api_flags}

-- The status of an http.Response, and what reading its body up to 1 MiB gives.
pub record Response : Type 0 where
  pub status : ℕ
  pub body : Result Str Str

pub record WebOps : Type 0 where
  -- url.QueryEscape and url.PathEscape
  pub query_escape : Str → Str
  pub path_escape : Str → Str
  -- strings.NewReplacer of the pairs, and its Replace
  pub replace : List (Str × Str) → Str → Str
  -- url.Parse: the text of the error, if there is one
  pub url_error : Str → Option Str
  -- url.Values.Encode
  pub encode_query : Dict Str → Str
  -- http.NewRequestWithContext of a GET: the text of the error, if there is one
  pub request_error : Str → Option Str
  -- http.Client.Do
  pub exchange : Str → Result Str Response
  -- json.Unmarshal into a map
  pub unmarshal : Str → Result Str Entries

-- `apiProvider`, without the client and the log.
pub record ApiProvider : Type 0 where
  pub endpoint : Str
  pub api_key : Str
  pub include : Str
  pub fields_arg : Str
  pub formatter : Formatter

pub data ApiError : Type 0 where
  missing_key : ApiError
  invalid_endpoint : Str → Str → ApiError

-- `firstLine`
unfoldable pub first_line : Str → Str
first_line text =
    let s = trim_space text in
    let line : Str = elim (index_byte 10 s) [ none ↦ s | some i ↦ take i s ] in
    if ltb 200 (length line) then take 200 line else line

abbrev pub count_entries : Entries → ℕ
count_entries end = 0
count_entries (entry k v es) = 1 + count_entries es

abbrev text_of : Option Value → Option Str
text_of none = none
text_of (some v) = elim v [ str s ↦ some s | _ ↦ none ]

-- The message of a response that holds nothing else.
unfoldable pub lone_message : Entries → Option Str
lone_message decoded = elim (text_of (find (codes "message") decoded)) [
  | none ↦ none
  | some message ↦ if count_entries decoded == 1 then some message else none
]

module _ (web : WebOps) where
  unfoldable pub new_api_provider : Str → Str → Str → Str → Formatter → Result ApiError ApiProvider
  new_api_provider endpoint api_key include fields f =
      let url = if length endpoint == 0 then default_api_endpoint else endpoint in
      if length api_key == 0 then err missing_key else elim (web.url_error url) [
        | some e ↦ err (invalid_endpoint url e)
        | none ↦ ok (record {
          endpoint = url;
          api_key = api_key;
          include = include;
          fields_arg = fields;
          formatter = f;
        })
      ]

  module _ (p : ApiProvider) where
    unfoldable pub redact : Str → Str
    redact message =
        if length p.api_key == 0
        then message
        else web.replace
            ((p.api_key, codes "[redacted]")
              ∷ (web.query_escape p.api_key, codes "[redacted]")
              ∷ (web.path_escape p.api_key, codes "[redacted]")
              ∷ [])
            message

    -- The URL of the request for an address.
    unfoldable pub request_url : Str → Str
    request_url address =
        let keyed = insert (codes "ip") address (insert (codes "apiKey") p.api_key []) in
        let included =
          if length p.include == 0 then keyed else insert (codes "include") p.include keyed in
        let query =
          if length p.fields_arg == 0
          then included
          else insert (codes "fields") p.fields_arg included in
        let separator : Str = elim (index_byte b'?' p.endpoint) [
          | none ↦ codes "?"
          | some i ↦ codes "&"
        ] in
        p.endpoint ++ separator ++ web.encode_query query

    -- From the request to the body.
    unfoldable pub fetch : Str → Result Str (ℕ × Str)
    fetch address = elim (web.request_error (request_url address)) [
      | some e ↦ err e
      | none ↦ (do
        response ← web.exchange (request_url address)
        body ← response.body
        ok (response.status, body))
    ]

    -- The rest, on the status and the body: the decoded response, or none where the address is
    -- not found.
    unfoldable pub interpret : ℕ → Str → Result Str (Option Entries)
    interpret status body =
        if status == 404
        then ok none
        else if status == 200
        then elim (web.unmarshal body) [
          | err e ↦ err (codes "cannot parse the API response: " ++ e)
          | ok decoded ↦ elim (lone_message decoded) [
            | some message ↦ err (codes "API error: " ++ message)
            | none ↦ ok (some decoded)
          ]
        ]
        else err
            (codes "API returned HTTP " ++ decimal status ++ codes ": " ++ first_line (redact body))

    -- The deferred function of `lookup`: an error whose text holds no key is left alone.
    unfoldable pub redact_error : Str → Str
    redact_error text = let message = redact text in if str_eq message text then text else message

    module _ (ops : FloatOps) where
      unfoldable pub answer : Result Str (Option Entries) → List FieldDef → Lookup Str
      answer (err e) defs = record { fields = []; found = false; error = some (redact_error e) }
      answer (ok none) defs = record { fields = []; found = false; error = none }
      answer (ok (some decoded)) defs = record {
        fields =
            extract_fields ops p.formatter (map_record (object (derive_api_flags decoded)) ∷ [])
              defs;
        found = true;
        error = none;
      }

      -- `apiProvider.lookup`
      unfoldable pub api_lookup : Str → List FieldDef → Lookup Str
      api_lookup address defs =
          answer (do (status, body) ← fetch address; interpret status body) defs
