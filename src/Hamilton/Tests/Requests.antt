-- ===== src/Hamilton/Tests/Requests.antt =====
-- Requests that arrive, from their fields to their response.
use project_hamilton.Base.{
  ℕ, ◌≡◌, ◌≤◌, ◌⊎◌, refl, Option, none, some, [], ◌∷◌, ◌++◌, Text, text, true,
}
use project_hamilton.Base.Int.{ℤ, pos}
use project_hamilton.Base.Json.{decimal}
use project_hamilton.Base.Action.{ok, raise}
use project_hamilton.Hamilton.State.{Client, processor, Failure, Reply}
use project_hamilton.Hamilton.Request.{TxRequest}
use project_hamilton.Hamilton.Idem.{find_idem}
use project_hamilton.Hamilton.Access.{
  Service, Incoming, Endpoint, transfer_endpoint, find_client, in_window_dec, incr, counter, bucket,
  rate_limit, role_dec, require_role, check_length, body_size_guard, authenticate_at, authenticate,
  admit, respond,
}
use project_hamilton.Hamilton.Served.{IsServed, respond_guarded}
use project_hamilton.Hamilton.Limit.{Arrival, served_count, served_within, is_counted_dec}
use project_hamilton.Hamilton.Validate.{
  positive, round_down, to_decimal, validate_hex, is_blank, strip_start, keep_blank, strip_end,
  upper, normed, is_allowed, validate_currency, check_size, RawOut, id_or, make_out, check_out,
  check_outs, RawTx, make_tx, validate_tx,
}
use project_hamilton.Hamilton.Valid.{IsValidTx, validate_tx-IsValidTx}
use project_hamilton.Hamilton.Tests.{program, env, start, cid, key, pay, ok_reply}

access_program : Unit {0}
unfolding program find_client in_window_dec incr counter bucket rate_limit role_dec require_role
    check_length body_size_guard authenticate_at authenticate admit respond decimal find_idem
access_program = tt

-- A client that may transfer, and its requests.
abbrev client : Client
client = record { client_id = cid; hmac_key = []; role = processor }

abbrev service : Service
service = record { db = record start { clients = client ∷ [] }; counters = [] }

abbrev incoming : Incoming
incoming = record {
  body = [];
  content_length = none;
  client_id = cid;
  timestamp = text "1000";
  signature = [];
  idem_key = key;
}

abbrev parse_int : Text → Option ℤ
parse_int t = some (pos 1000)

abbrev pay_endpoint : Endpoint
pay_endpoint = transfer_endpoint pay

respond_ok : (respond env parse_int true 1010 incoming pay_endpoint service).0 ≡ ok ok_reply
unfolding access_program
respond_ok = refl

respond_guarded_example :
    ((reply : Reply) × (s' : Service) × (respond env parse_int true 1010 incoming pay_endpoint
          service
        ≡ (ok reply, s'))
      × IsServed env parse_int 1010 incoming pay_endpoint service reply s')
    ⊎ ((e : Failure) × (s' : Service) × (respond env parse_int true 1010 incoming pay_endpoint
            service
          ≡ (raise e, s'))
        × (s'.db ≡ service.db))
respond_guarded_example = respond_guarded env parse_int true 1010 incoming pay_endpoint service

abbrev arrival : Arrival
arrival = record { online = true; now = 1010; req = incoming; call = pay_endpoint }

served_within_example :
    served_count env parse_int pay_endpoint cid 1010 (arrival ∷ arrival ∷ []) service ≤ 30
served_within_example =
    served_within env parse_int pay_endpoint cid 1010 (arrival ∷ arrival ∷ []) service

-- Both get the response, the second from the table of idempotency.
served_twice : served_count env parse_int pay_endpoint cid 1010 (arrival ∷ arrival ∷ []) service ≡ 2
unfolding access_program served_count is_counted_dec
served_twice = refl

-- What is sent for a transfer of 0.019, which becomes one cent.
abbrev hex_key : Text
hex_key = text "0123456789abcdef0123456789abcdef0123456789abcdef0123456789abcdef"

abbrev raw_out : RawOut
raw_out = record {
  token_id = none;
  amount = some (positive (record { digits = 19; places = 3 }));
  receiver_public_key = hex_key;
}

abbrev raw_tx : RawTx
raw_tx = record {
  transaction_id = text "t";
  network_id = text "n";
  currency = text " usd";
  inputs = text "a" ∷ [];
  outputs = raw_out ∷ [];
  signer_public_key = hex_key;
  signed_at = pos 1000;
  signature = hex_key ++ hex_key;
}

abbrev fresh : ℕ → Text
fresh k = k ∷ []

abbrev valid_tx : TxRequest
valid_tx = record {
  transaction_id = text "t";
  network_id = text "n";
  currency = text "USD";
  inputs = text "a" ∷ [];
  outputs = record { token_id = fresh 0; amount = 1; receiver_public_key = hex_key } ∷ [];
  signer_public_key = hex_key;
  signed_at = pos 1000;
  signature = hex_key ++ hex_key;
}

is_valid : validate_tx fresh raw_tx tt ≡ (ok valid_tx, tt)
unfolding access_program round_down to_decimal validate_hex is_blank strip_start keep_blank
    strip_end upper normed is_allowed validate_currency check_size id_or make_out check_out
    check_outs make_tx validate_tx
is_valid = refl

validate_tx-IsValidTx_example : IsValidTx fresh raw_tx valid_tx
validate_tx-IsValidTx_example = validate_tx-IsValidTx fresh raw_tx valid_tx tt is_valid
