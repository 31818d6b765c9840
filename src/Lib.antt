-- ===== src/Lib.antt =====
-- Project Hamilton: a ledger of tokens with its services, in Python.
--
-- The core ledger (hamilton/main.py) keeps tokens with an amount, a currency and an owner. A
-- client calls process_tx, which spends tokens of one owner and creates tokens of the same worth,
-- mint, which creates a token, or burn, which retires tokens. Each call runs in one database
-- transaction with its idempotency key and writes one row of an audit chain. The liquidity bridge
-- (bridge/main.py) records mints and burns that a bank reports, and keeps the liquidity of each
-- currency. The merchant service (merchant/main.py) keeps payments, which callbacks settle.
-- Each service has a database of its own. Beside the services stand the models of a transaction
-- of unspent tokens (core/models.py), a ledger in memory that applies such transactions for many
-- threads (utxo/mock_store.py), the same ledger over Redis for many clients (utxo/store.py), a
-- wallet that builds and signs them (wallet/cli.py), and signed
-- tokens (core/crypto.py).
--
-- Base: the names of the library that the parts share, and what they share beside it.
--   Base/Lists    lists and texts, a text being the list of its characters.
--   Base/Action   a call that reads and changes a database and returns or raises, as a do block;
--                 `transaction` gives the database back as it was when the body raises.
--                 Base/Action/Atomic has its laws.
--   Base/Money    decimal amounts as numbers of units, with the rounding of Python's decimal
--                 context to 28 significant digits. `round` has as many rounds as the number
--                 itself, which is enough as a number is below 10 to its power; sums below
--                 10 ^ 28 units, called `limit`, are not rounded. `decimal` writes a number
--                 digit by digit with that number, plus one, as fuel.
--   Base/Decimal  numbers that are sent, and their rounding to cents, half to even.
--   Base/Int      the integers over the native ℕ.
--   Base/Json     json.dumps on the payloads that are signed and logged.
--
-- Hamilton: hamilton/main.py.
--   Hamilton/State     the tables utxos, ledger_audit and idempotency_cache, and their access.
--   Hamilton/Request   the requests, their signed payloads and the checks before a transaction.
--   Hamilton/Audit     _audit_insert and the chain of hashes.
--   Hamilton/Idem      _idem_acquire, _idem_complete and _gc_stale_idem.
--   Hamilton/Handlers  process_tx, mint and burn; amounts are counted in cents.
--   Hamilton/Access    body_size_guard, authenticate, the rate limit, require_role and the three
--                      endpoints around the handlers. A request has one time for all of these. A
--                      counter of Redis carries its minute in its name, so its expiry is not
--                      modelled. The headers are ASCII.
--   Hamilton/Validate  the validators of the requests; a refusal does not say which fault it is for.
--   Hamilton/Init      init_db, with the seeding of the clients, and health.
--   Admitted and Served hold what a request that gets a response has passed, Limit what holds
--   over a sequence of requests, and Valid what a validated request is. Table, Spending,
--   Outputs, Atomic, Once, Transfer, MintBurn, Guards, Chain, Effects and Sound hold lemmas,
--   Conservation and Ownership what one call does, Run what holds over a sequence of calls,
--   restarts included, and Tests the runs on small ledgers. A sequence of calls is a list: the
--   service runs its transactions one after another under BEGIN IMMEDIATE.
--
-- Bridge: bridge/main.py.
--   Bridge/State      the tables of init_db.
--   Bridge/Liquidity  process_liquidity_transaction, step by step.
--   Bridge/Access     verify_api_key, check_rate_limit and verify_signature.
--   Bridge/Endpoints  the two endpoints, from the middleware to the transaction.
--   Backing, Process and Books hold what the liquidity is compared with and how a transaction
--   changes it, Keeps and Replay what a request and a sequence of them do, and Tests the runs on
--   small books.
--
-- Merchant: merchant/main.py.
--   Merchant/State     the tables of init_db.
--   Merchant/Payments  create_payment, payment_callback and get_payment_status.
--   Merchant/Access    require_admin, verify_webhook_signature and sign_qr_payload.
--   Callback and Settled hold what a callback does, and Tests the runs on one payment. The count
--   of the rate limit is what Redis returned, and the response shows the row of the payment.
--
-- Models: core/models.py.
--   Models/Types      the records and enumerations.
--   Models/Validate   what pydantic accepts and makes of the amounts.
--   Models/Status     advance_status, and what a sequence of them comes to.
--   Models/Canonical  get_canonical_json and compute_hash.
--   Models/Economics  verify_economic_validity. Balance and Amounts hold what the checks mean.
--
-- Stores: utxo/mock_store.py.
--   Stores/State, Stores/Index   the dictionaries of MemoryUTXOLedger.
--   Stores/Hash                  _compute_tx_hash and the text that an owner signs.
--   Stores/Memory                the operations; apply_transaction is `prepare`, its part up to and
--                                with the first section under the lock and the checks, and
--                                `commit`, its second section.
--   Stores/Threads               the threads that call apply_transaction: a step is one of the two
--                                parts of one call. What stands between the sections reads the
--                                transaction and the fetched tokens only, so it is no step.
--   Table, Owners, Sums, Intent, Prepared, Commit and Conserve hold lemmas, Apply and Indexed what
--   one call does, Uuids what becomes of identifiers that are UUID objects, Balances what
--   get_balance means, and Interleaved what holds over the steps of all threads.
--
-- Redis: utxo/store.py.
--   Redis/State     the keys of UTXOStore. The value of a key stands for its JSON text, and a token
--                   is under the key of its own identifier. A key "tx:" has the time of its expiry,
--                   and times are in microseconds.
--   Redis/Process   process_transaction, in the part before WATCH, the part up to MULTI and the
--                   part from there, and add_utxo.
--   Redis/Snapshot  snapshot and restore.
--   Redis/Balance   get_utxo and get_balance.
--   What SCAN and SSCAN yield is an argument, and what a theorem needs of it a hypothesis. View is
--   the ledger in memory that a store stands for, Values holds lemmas, Refused is about
--   process_transaction and Restored about snapshots. Which texts are UUIDs of version 4 is an
--   argument. What the code does after the checks of process_transaction is modelled too, although
--   no call gets there.
--
-- Wallet: wallet/cli.py.
--   Wallet/Payment  build_payment and the files that it reads and writes; an amount is a finite
--                   decimal of zero or more, in one of the three currencies. Wallet/Sign is sign, once the key is unlocked.
--   Wallet/Fetch    _validate_endpoint and _safe_fetch_json.
--   Wallet/Session  the three files, CryptoUtils as a record of functions, and the commands: init,
--                   sync_utxos, build_payment and qr. A fault of a write is an argument.
--   Choice holds what is chosen, Build and Unpaid how build_payment ends, Commands and Synced what one command
--   does to the files, and Kept what a sequence of them keeps.
--
-- Crypto: core/crypto.py.
--   Crypto/Base64  the encoding of keys and signatures.
--   Crypto/Token   tokens; a field of a token's data is its text. RoundTrip holds what is read back.
--
-- In these parts an identifier is its text and its kind (IdKind): a str, or the UUID object that a
-- field of the type UUID4 makes of it. The two are never equal, and json.dumps takes only a str. A
-- validated Transaction or UTXO has UUID objects; where the stores are given a str, it comes from
-- objects that are made without validation. The keys of the dictionaries and of Redis are texts.
-- CryptoUtils, which core/crypto.py does not define, and the library cryptography are records of
-- functions (`Env`, `Library`).
--
-- Functions keep their Python names without a leading underscore. What the code takes from
-- outside is an argument: SHA-256, HMAC, the verification of Ed25519, uuid.UUID and int on a
-- header are fields of `Env`, of which nothing is assumed; the time and the identifiers of uuid4
-- are arguments of the handlers, `fresh` numbering the calls of uuid4 within one call. A fresh
-- identifier of a service may clash with one that is there, which is the IntegrityError of its
-- table.
--
-- Not modelled: how FastAPI reads a body, so a request comes as its fields; logging, timestamps
-- that no code reads, and the lock timeouts of SQLite; the image of the QR code of a payment;
-- the models PaymentResponse, MintRequest and BurnRequest of core/models.py, which no code
-- builds; the connections of the stores and of SQLite, the checks of the settings when a module
-- is loaded, and the limit on the body of the merchant service; the modes of the files and the
-- prompts of the wallet; and the launcher (main.py), which only starts processes.
pub mod Base
pub mod Hamilton
pub mod Bridge
pub mod Merchant
pub mod Models
pub mod Stores
pub mod Wallet
pub mod Crypto
pub mod Redis
