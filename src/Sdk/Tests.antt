-- ===== src/Sdk/Tests.antt =====
-- Runs of the entry point of the Go SDK (api/golang/redbus).
use redbus.Prelude.{
  ◌<◌, ◌≡◌, refl, Bool, true, false, ◌⊎◌, none, some, List, [], ◌∷◌, ◌++◌, length, too_large,
  Result, ok, err,
}
use redbus.Prelude.Texts.{text}
use redbus.Prelude.Int.{pos}
use redbus.Outbox.Rows.{Row, message_of}
use redbus.Outbox.Write.{
  ProduceRequest, ProduceOption, with_key, new_request, limit_of, batch_message,
}
use redbus.Sdk.Settings.{Settings, validate}
use redbus.Sdk.Client.{
  Client, created, new_client, client_produce, produce_tx, produce_tx-client_produce,
}

-- A client that only produces, with a limit of 8 bytes.
abbrev settings : Settings
settings = record {
  host = text "bus";
  port = pos 50005;
  producer_enabled = true;
  consumer_enabled = false;
  outbox_batch_size = pos 0;
  max_message_bytes = pos 8;
}

abbrev client : Client
client = record { settings = settings; has_db = true; has_bus = true; flusher_on = false }

abbrev takes_all : ProduceRequest → Result Bool
takes_all q = ok true

abbrev keyed : List ProduceOption
keyed = with_key (text "k") ∷ []

abbrev asked : ProduceRequest
asked = new_request (text "u") (text "t") (text "o") (text "a") keyed

creates : new_client settings true none ≡ created client
unfolding new_client validate
creates = refl

produce_tx-client_produce_example :
    let write = produce_tx 9 none client (text "u") (text "t") (text "o") (text "a") keyed [] in
    let answer =
      client_produce takes_all client (text "u") (text "t") (text "o") (text "a") keyed in
    ((true ≡ false) × (write ≡ (none, [])) × (answer ≡ ok false))
    ⊎ (((limit_of (pos 8) < length (text "a"))
          × (write ≡ (some too_large, []))
          × (answer ≡ err too_large))
        ⊎ ((row : Row) × (write ≡ (none, [] ++ row ∷ []))
            × (row.topic ≡ asked.topic)
            × (message_of row ≡ batch_message 9 asked)
            × (answer ≡ ok true)))
produce_tx-client_produce_example =
    produce_tx-client_produce settings true none client takes_all 9 (text "u") (text "t") (text "o")
      (text "a") keyed [] creates
