-- ===== src/Kafka/Settings/Durable.antt =====
-- What holds of every configuration that the Kafka driver resolves.
use proofload_sh.Prelude.{
  ◌≡◌, ◌≢◌, refl, ap, subst, arith, Bool, true, false, not, ◌||◌, Bool-cases, inl, inr, some,
  bind-some, some_injective, List, [], ◌∷◌, ◌++◌, map, if◌then◌else◌, String, ◌==◌, string_eq, pos,
  ◌≤ℤ◌,
}
use proofload_sh.Kafka.Settings.{
  AckMode, ack_all, ack_leader, ack_none, is_all, DriverConfig, ResolvedConfig, resolve,
  resolved_with, parse_acks, batch_size_from, brokers_from, with_client, ClientOpt, seed_brokers,
  required_acks, disable_idempotent_write, transactional_id, consumer_group, consume_topics,
  client_opts, acks_opts, transaction_opts, group_opts, guarantees_for, guarantees, or_these,
  bool_param,
}

-- Whether an option turns idempotent writes off.
abbrev pub is_disable : ClientOpt → Bool
is_disable disable_idempotent_write = true
is_disable (seed_brokers brokers) = false
is_disable (required_acks acks) = false
is_disable (transactional_id txn) = false
is_disable (consumer_group group) = false
is_disable (consume_topics topic) = false

abbrev pub disables : List ClientOpt → Bool
disables [] = false
disables (o ∷ os) = is_disable o || disables os

-- The acknowledgements that the options ask for.
abbrev pub asked : List ClientOpt → List AckMode
asked [] = []
asked (required_acks acks ∷ os) = acks ∷ asked os
asked (seed_brokers brokers ∷ os) = asked os
asked (disable_idempotent_write ∷ os) = asked os
asked (transactional_id txn ∷ os) = asked os
asked (consumer_group group ∷ os) = asked os
asked (consume_topics topic ∷ os) = asked os

-- A configuration whose guarantees agree: exactly-once delivery implies idempotent writes, which imply
-- acknowledgement by all replicas, and the client is told so.
pub record IsDurable (rc : ResolvedConfig) : Type 0 where
  pub exactly_once : rc.txn_id ≢ "" → (rc.acks ≡ ack_all) × (rc.idempotent ≡ true)
  pub idempotent_all : rc.idempotent ≡ true → rc.acks ≡ ack_all
  pub told : disables (client_opts rc) ≡ not rc.idempotent
  pub asked_once : asked (client_opts rc) ≡ rc.acks ∷ []
  pub some_broker : rc.brokers ≢ []
  pub some_record : pos 1 ≤ℤ rc.batch_size

is_all-ack_all : (a : AckMode) → is_all a ≡ true → a ≡ ack_all
is_all-ack_all ack_all h = refl
is_all-ack_all ack_leader h = cc
is_all-ack_all ack_none h = cc

batch_size_from-le : (cfg : DriverConfig) → pos 1 ≤ℤ batch_size_from cfg
unfolding batch_size_from
batch_size_from-le cfg = ground arith

or_these-cons : (xs ys : List String) → ys ≢ [] → or_these xs ys ≢ []
or_these-cons [] ys h = h
or_these-cons (x ∷ xs) ys h = λ e. cc

brokers_from-cons : (cfg : DriverConfig) → brokers_from cfg ≢ []
unfolding brokers_from
brokers_from-cons cfg =
    or_these-cons cfg.endpoints
      (or_these (map (λ n. n.client) (with_client cfg.nodes)) ("localhost:9092" ∷ []))
      (or_these-cons (map (λ n. n.client) (with_client cfg.nodes)) ("localhost:9092" ∷ [])
        (λ e. cc))

guarantees-exact :
    (txn : String) (acks : AckMode) (switch : Bool)
    → txn ≢ ""
    → (guarantees txn acks switch).0 ≡ ack_all × ((guarantees txn acks switch).1 ≡ true)
unfolding guarantees
guarantees-exact txn acks switch h = elim (Bool-cases (txn == "")) [
  | inl e ↦ absurd (h ((string_eq.beq_iff txn "").0 e))
  | inr e ↦ rw e (refl, refl)
]

guarantees-all :
    (txn : String) (acks : AckMode) (switch : Bool)
    → (guarantees txn acks switch).1 ≡ true
    → (guarantees txn acks switch).0 ≡ ack_all
unfolding guarantees
guarantees-all txn acks switch h = by_case (txn == "") h
  where
    by_case :
        (b : Bool)
        → (guarantees_for b acks switch).1 ≡ true
        → (guarantees_for b acks switch).0 ≡ ack_all
    by_case true g = is_all-ack_all acks (ground (arith, g))
    by_case false g = refl

-- The options beside the acknowledgements ask for none and turn nothing off.
quiet :
    (txn group topic : String)
    → (disables (transaction_opts txn ++ group_opts group topic) ≡ false)
      × (asked (transaction_opts txn ++ group_opts group topic) ≡ [])
unfolding transaction_opts group_opts
quiet txn group topic = by_case (txn == "") (group == "")
  where
    by_case :
        (t g : Bool)
        → (disables (
              (if t then [] else transactional_id txn ∷ [])
              ++ (if g then [] else consumer_group group ∷ consume_topics topic ∷ []))
            ≡ false)
          × (asked (
                (if t then [] else transactional_id txn ∷ [])
                ++ (if g then [] else consumer_group group ∷ consume_topics topic ∷ []))
              ≡ [])
    by_case true true = (refl, refl)
    by_case true false = (refl, refl)
    by_case false true = (refl, refl)
    by_case false false = (refl, refl)

acks_opts-told :
    (acks : AckMode) (idempotent : Bool) (rest : List ClientOpt)
    → (idempotent ≡ true → acks ≡ ack_all)
    → disables rest ≡ false
    → asked rest ≡ []
    → (disables (acks_opts acks idempotent ++ rest) ≡ not idempotent)
      × (asked (acks_opts acks idempotent ++ rest) ≡ acks ∷ [])
acks_opts-told ack_all true rest h d a = (d, ap (λ l. ack_all ∷ l) a)
acks_opts-told ack_all false rest h d a = (refl, ap (λ l. ack_all ∷ l) a)
acks_opts-told ack_leader true rest h d a = let none_of : ack_leader ≡ ack_all = h refl in cc
acks_opts-told ack_leader false rest h d a = (refl, ap (λ l. ack_leader ∷ l) a)
acks_opts-told ack_none true rest h d a = let none_of : ack_none ≡ ack_all = h refl in cc
acks_opts-told ack_none false rest h d a = (refl, ap (λ l. ack_none ∷ l) a)

client_opts-told :
    (rc : ResolvedConfig)
    → (rc.idempotent ≡ true → rc.acks ≡ ack_all)
    → (disables (client_opts rc) ≡ not rc.idempotent) × (asked (client_opts rc) ≡ rc.acks ∷ [])
unfolding client_opts
client_opts-told rc h =
    let others = quiet rc.txn_id rc.group rc.topic.name in
    acks_opts-told rc.acks rc.idempotent
      (transaction_opts rc.txn_id ++ group_opts rc.group rc.topic.name) h others.0 others.1

resolved_with-IsDurable : (cfg : DriverConfig) (acks : AckMode) → IsDurable (resolved_with cfg acks)
unfolding resolved_with
resolved_with-IsDurable cfg acks =
    let rc = resolved_with cfg acks in
    let switch = bool_param cfg.params "idempotent" true in
    let all_acks : rc.idempotent ≡ true → rc.acks ≡ ack_all =
      guarantees-all rc.txn_id acks switch in
    record {
      exactly_once = guarantees-exact rc.txn_id acks switch;
      idempotent_all = all_acks;
      told = (client_opts-told rc all_acks).0;
      asked_once = (client_opts-told rc all_acks).1;
      some_broker = brokers_from-cons cfg;
      some_record = batch_size_from-le cfg;
    }

-- Every configuration that is resolved is durable: a transaction's identifier forces acknowledgement by all
-- replicas and idempotent writes, idempotent writes come with acknowledgement by all replicas only, the
-- client's options turn them off exactly when they are off and ask for the resolved acknowledgements once,
-- and there is a broker to connect to and at least one record to a batch.
pub resolve-IsDurable :
    (cfg : DriverConfig) (rc : ResolvedConfig) → resolve cfg ≡ some rc → IsDurable rc
unfolding resolve
resolve-IsDurable cfg rc h =
    let parsed =
      bind-some (parse_acks cfg.consistency) (λ acks. some (resolved_with cfg acks)) rc h in
    subst IsDurable (some_injective (resolved_with cfg parsed.0) rc parsed.2)
      (resolved_with-IsDurable cfg parsed.0)
