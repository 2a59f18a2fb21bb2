-- ===== src/Sdk/Client.antt =====
-- `Client` (api/golang/redbus/client.go): `New`, the two ways to produce, the start of the flusher
-- and `Consume`, over the transport of transport.go, which hands a message to the producer of the
-- SDK. The random idempotency key, the clock, the database and what the bus answers are arguments.
use redbus.Prelude.{
  ℕ, ◌<◌, ◌≡◌, Bool, true, false, not, ◌&&◌, ◌⊎◌, inl, inr, Option, none, some, List, [], ◌∷◌, ◌++◌,
  Text, if◌then◌else◌, arith, length, Error, plain, too_large, rejected, Result, ok, err,
  Bool-cases,
}
use redbus.Prelude.Texts.{text}
use redbus.Prelude.Int.{ℤ}
use redbus.Outbox.Rows.{Row, message_of}
use redbus.Outbox.Flusher.{
  with_batch_size, with_listen_dsn, apply_flusher_option, apply_flusher_options, new_flusher,
  refuses,
}
use redbus.Outbox.Write.{
  ProduceRequest, ProduceOption, new_request, limit_of, check_message_size, produce,
  write_with_limit, batch_message, write-produce,
}
use redbus.Sdk.Settings.{
  Settings, enabled, batch_size_of, max_bytes_of, validate, validate-bounds, limit_of-max_bytes,
}

-- `Client`: whether it has a database and a transport, and whether its flusher was started
pub record Client : Type 0 where
  pub settings : Settings
  pub has_db : Bool
  pub has_bus : Bool
  pub flusher_on : Bool

-- What `New` returns: the errors of the settings, the error of the transport, or a client
pub data NewClient : Type 0 where
  invalid : List Error → NewClient
  not_connected : Error → NewClient
  created : Client → NewClient

-- `New`, with whether the options give a database, and the error of a transport
unfoldable pub new_client : Settings → Bool → Option Error → NewClient
unfolding validate
new_client s db transport = elim (validate s) [
  | e ∷ es ↦ invalid (e ∷ es)
  | [] ↦
      if enabled s
      then elim transport [
        | some e ↦ not_connected e
        | none ↦ created (record { settings = s; has_db = db; has_bus = true; flusher_on = false })
      ]
      else created (record { settings = s; has_db = db; has_bus = false; flusher_on = false })
]

abbrev pub may_produce : Client → Bool
may_produce c = c.has_bus && c.settings.producer_enabled

-- `Produce`; the producer of the transport has the limit of the settings.
unfoldable pub client_produce :
    (ProduceRequest → Result Bool)
    → Client
    → Text
    → Text
    → Text
    → Text
    → List ProduceOption
    → Result Bool
unfolding check_message_size produce
client_produce bus c uuid now topic message options =
    let limit = max_bytes_of c.settings in
    if may_produce c
    then elim (check_message_size message limit) [
      | some e ↦ err e
      | none ↦ elim (produce bus limit uuid now topic message options) [
        | some e ↦ err e
        | none ↦ ok true
      ]
    ]
    else ok false

-- `ProduceTx`
unfoldable pub produce_tx :
    ℕ
    → Option Error
    → Client
    → Text
    → Text
    → Text
    → Text
    → List ProduceOption
    → List Row
    → Option Error × List Row
unfolding write_with_limit
produce_tx id answer c uuid now topic message options table =
    if c.settings.producer_enabled
    then write_with_limit id answer (max_bytes_of c.settings) uuid now topic message options table
    else (none, table)

-- `ErrNoDatabase`
abbrev pub err_no_database : Error
err_no_database = plain (text "redbus: the client has no database (WithDB)")

-- What a call starts, if it starts anything
pub data Start : Type 0 where
  nothing : Start
  refused : Error → Start
  flusher : ℤ → Start
  consumer : Start

-- `StartFlusher`: a flusher starts with the size of a batch.
unfoldable pub start_flusher : Client → Start × Client
start_flusher c =
    if not (may_produce c)
    then (nothing, c)
    else if not c.has_db
    then (refused err_no_database, c)
    else if c.flusher_on
    then (nothing, c)
    else (flusher (batch_size_of c.settings), record c { flusher_on = true })

-- `Consume`, for an inbox that is disabled or not
unfoldable pub client_consume : Bool → Client → Start
client_consume disabled c =
    if not (c.has_bus && c.settings.consumer_enabled)
    then nothing
    else if not disabled && not c.has_db
    then refused err_no_database
    else consumer

-- A client has valid settings, and a transport exactly if a side is enabled.
pub new_client-bus :
    (s : Settings) (db : Bool) (transport : Option Error) (c : Client)
    → new_client s db transport ≡ created c
    → (validate c.settings ≡ []) × (c.has_bus ≡ enabled c.settings)
unfolding new_client
new_client-bus s db transport c h = (ground (arith, h), ground (arith, h))

-- For a client that `New` returns and the same arguments, where the database answers: without an
-- enabled producer neither way does anything; a payload above the limit of the settings is refused
-- by both; any other one is sent by the call, which reports what the bus makes of the request, and
-- is one more row of the outbox, which the flusher sends as the same message, but for the version
-- of a request without one, which is the id of the row.
pub produce_tx-client_produce :
    (s : Settings) (db : Bool) (transport : Option Error) (c : Client)
    (bus : ProduceRequest → Result Bool) (id : ℕ) (uuid now topic message : Text)
    (options : List ProduceOption) (table : List Row)
    → new_client s db transport ≡ created c
    → let q = new_request uuid now topic message options in
      let write = produce_tx id none c uuid now topic message options table in
      let answer = client_produce bus c uuid now topic message options in
      ((c.settings.producer_enabled ≡ false) × (write ≡ (none, table)) × (answer ≡ ok false))
      ⊎ (((limit_of c.settings.max_message_bytes < length message)
            × (write ≡ (some too_large, table))
            × (answer ≡ err too_large))
          ⊎ ((row : Row) × (write ≡ (none, table ++ row ∷ []))
              × (row.topic ≡ q.topic)
              × (message_of row ≡ batch_message id q)
              × (answer ≡ elim (bus q) [
                | err e ↦ err e
                | ok accepted ↦ if accepted then ok true else err rejected
              ])))
unfolding client_produce produce_tx check_message_size produce write_with_limit
produce_tx-client_produce s db transport c bus id uuid now topic message options table h =
    let connected = new_client-bus s db transport c h in
    let same = limit_of-max_bytes c.settings in
    elim (Bool-cases c.settings.producer_enabled) [
      | inr off ↦ inl (off, ground (arith, off), ground (arith, off))
      | inl on ↦
          let may : may_produce c ≡ true = ground (arith, connected.1, on) in
          elim (write-produce bus id (max_bytes_of c.settings) uuid now topic message options
            table) [
              | inl large ↦
                  inr (inl (rw (← same) large.0, rw on large.1, ground (arith, may, large.0)))
              | inr sent ↦
                  inr (
                    inr (sent.0, rw on sent.1, sent.2, sent.3, ground (arith, may, sent.1, sent.4)))
            ]
    ]

-- The flusher of a client that `New` returned is accepted by the checks of `Run`, unless further
-- options replace its settings, and only the first call starts it.
pub start_flusher_once :
    (s : Settings) (db : Bool) (transport : Option Error) (c : Client) (n : ℤ) (dsn : Text)
    → new_client s db transport ≡ created c
    → (start_flusher c).0 ≡ flusher n
    → let c' = (start_flusher c).1 in
      (refuses (new_flusher (with_batch_size n ∷ with_listen_dsn dsn ∷ [])) ≡ none)
      × (start_flusher c' ≡ (nothing, c'))
unfolding start_flusher refuses new_flusher apply_flusher_options apply_flusher_option
start_flusher_once s db transport c n dsn h e =
    let bounds = validate-bounds c.settings (new_client-bus s db transport c h).0 in
    (ground (arith, e, bounds.0), ground (arith, e))
