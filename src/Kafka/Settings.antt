-- ===== src/Kafka/Settings.antt =====
-- targets/kafka/kafkadriver/config.go and params.go, with the client options and the topic request of driver.go
-- and the nodes of cluster.go.
use proofload_sh.Prelude.{
  ℕ, ◌+◌, ◌-◌, ◌^◌, ◌%◌, ◌≤◌, ◌≡◌, ◌≢◌, refl, arith, Bool, true, false, not, ◌&&◌, ◌||◌, Option,
  none, some, ◌>>=◌, List, [], ◌∷◌, ◌++◌, map, if◌then◌else◌, ltb, String, ◌==◌, string_eq, codes,
  lower, eq_codes, ℤ, pos, negsuc, ltb_ℤ, eqb_ℤ, Dict, lookup, ◌≤ℤ◌,
}
use proofload_sh.Provision.Text.{trim_space}
pub mod Durable

-- A value of the decoded parameters; a float is what Go converts it to, and `other` is any other type.
pub data ParamValue : Type 0 where
  text : String → ParamValue
  number : ℤ → ParamValue
  float : (converted : ℤ) → ParamValue
  bool : Bool → ParamValue
  other : ParamValue

abbrev pub Params : Type 0
Params = Dict String ParamValue

-- `paramString`
unfoldable pub param_string : Params → String → String
param_string params key = text_of (lookup key params)
  where
    text_of : Option ParamValue → String
    text_of (some (text s)) = s
    text_of p = ""

-- `paramInt`
unfoldable pub param_int : Params → String → ℤ → ℤ
param_int params key def = number_or (lookup key params)
  where
    number_or : Option ParamValue → ℤ
    number_or (some (number n)) = n
    number_or (some (float n)) = n
    number_or p = def

-- `paramBool`
unfoldable pub bool_param : Params → String → Bool → Bool
bool_param params key def = bool_or (lookup key params)
  where
    bool_or : Option ParamValue → Bool
    bool_or (some (bool b)) = b
    bool_or p = def

-- `firstNonEmpty`
unfoldable pub first_non_empty : List String → String
first_non_empty [] = ""
first_non_empty (v ∷ vals) = if v == "" then first_non_empty vals else v

-- `ackMode`
pub data AckMode : Type 0 where
  ack_all ack_leader ack_none : AckMode

abbrev one_of : List ℕ → List String → Bool
one_of t [] = false
one_of t (s ∷ ss) = eq_codes t (codes s) || one_of t ss

-- `parseAcks`: `none` is a level that is not supported.
unfoldable pub parse_acks : String → Option AckMode
unfolding trim_space
parse_acks consistency =
    let level = map lower (trim_space (codes consistency)) in
    if one_of level ("" ∷ "acks=all" ∷ "all" ∷ "-1" ∷ [])
    then some ack_all
    else if one_of level ("acks=1" ∷ "1" ∷ "leader" ∷ [])
    then some ack_leader
    else if one_of level ("acks=0" ∷ "0" ∷ "none" ∷ [])
    then some ack_none
    else none

-- A node of the cluster: its name and its client endpoint.
pub record Broker : Type 0 where
  pub id : String
  pub client : String

-- driver.Config
pub record DriverConfig : Type 0 where
  pub endpoints : List String
  pub consistency : String
  pub nodes : List Broker
  pub replication_factor : ℤ
  pub params : Params

-- The conversion of an int to a signed integer of w bits.
unfoldable pub to_signed : ℕ → ℤ → ℤ
to_signed w (pos n) =
    let r = n % 2 ^ w in if ltb r (2 ^ (w - 1)) then pos r else negsuc (2 ^ w - 1 - r)
to_signed w (negsuc n) =
    let r = n % 2 ^ w in if ltb r (2 ^ (w - 1)) then negsuc r else pos (2 ^ w - 1 - r)

-- `topicConfig`
pub record TopicConfig : Type 0 where
  pub name : String
  pub partitions : ℤ
  pub replication : ℤ

-- `topicConfigFrom`
unfoldable pub topic_config_from : DriverConfig → TopicConfig
unfolding param_string param_int first_non_empty to_signed
topic_config_from cfg =
    let repl = if ltb_ℤ (pos 0) cfg.replication_factor then cfg.replication_factor else pos 3 in
    record {
      name = first_non_empty (param_string cfg.params "topic" ∷ "proofload" ∷ []);
      partitions = to_signed 32 (param_int cfg.params "partitions" (pos 3));
      replication = to_signed 16 (param_int cfg.params "replication_factor" repl);
    }

-- `batchSizeFrom`
unfoldable pub batch_size_from : DriverConfig → ℤ
unfolding param_int
batch_size_from cfg =
    let n = param_int cfg.params "batch_size" (pos 1) in if ltb_ℤ n (pos 1) then pos 1 else n

-- `Nodes`, which every driver defines alike: the nodes with a client endpoint.
unfoldable pub with_client : List Broker → List Broker
with_client [] = []
with_client (n ∷ ns) = let rest = with_client ns in if n.client == "" then rest else n ∷ rest

-- A list of brokers, and another one where it is empty.
abbrev pub or_these : List String → List String → List String
or_these [] others = others
or_these (b ∷ bs) others = b ∷ bs

-- `brokersFrom`
unfoldable pub brokers_from : DriverConfig → List String
unfolding with_client
brokers_from cfg =
    or_these cfg.endpoints
      (or_these (map (λ n. n.client) (with_client cfg.nodes)) ("localhost:9092" ∷ []))

-- `resolvedConfig`
pub record ResolvedConfig : Type 0 where
  pub brokers : List String
  pub topic : TopicConfig
  pub acks : AckMode
  pub idempotent : Bool
  pub txn_id : String
  pub group : String
  pub batch_size : ℤ

abbrev pub is_all : AckMode → Bool
is_all ack_all = true
is_all ack_leader = false
is_all ack_none = false

-- The acknowledgements and the idempotence that go with a transaction's identifier, a level and a switch.
abbrev pub guarantees_for : (no_txn : Bool) → AckMode → (switch : Bool) → AckMode × Bool
guarantees_for true acks switch = (acks, is_all acks && switch)
guarantees_for false acks switch = (ack_all, true)

unfoldable pub guarantees : (txn_id : String) → AckMode → (switch : Bool) → AckMode × Bool
guarantees txn_id acks switch = guarantees_for (txn_id == "") acks switch

-- `resolve`, once the level is parsed
unfoldable pub resolved_with : DriverConfig → AckMode → ResolvedConfig
unfolding param_string bool_param first_non_empty topic_config_from batch_size_from brokers_from
    guarantees
resolved_with cfg acks =
    let params = cfg.params in
    let txn_id =
      first_non_empty
        (param_string params "transactional_id" ∷ param_string params "txn_id" ∷ []) in
    let given = guarantees txn_id acks (bool_param params "idempotent" true) in
    record {
      brokers = brokers_from cfg;
      topic = topic_config_from cfg;
      acks = given.0;
      idempotent = given.1;
      txn_id = txn_id;
      group =
          first_non_empty (param_string params "group" ∷ param_string params "consumer_group" ∷ []);
      batch_size = batch_size_from cfg;
    }

-- `resolve`
unfoldable pub resolve : DriverConfig → Option ResolvedConfig
unfolding parse_acks resolved_with
resolve cfg = parse_acks cfg.consistency >>= λ acks. some (resolved_with cfg acks)

-- An option of the client.
pub data ClientOpt : Type 0 where
  seed_brokers : List String → ClientOpt
  required_acks : AckMode → ClientOpt
  disable_idempotent_write : ClientOpt
  transactional_id consumer_group consume_topics : String → ClientOpt

abbrev pub acks_opts : AckMode → (idempotent : Bool) → List ClientOpt
acks_opts ack_all true = required_acks ack_all ∷ []
acks_opts ack_all false = required_acks ack_all ∷ disable_idempotent_write ∷ []
acks_opts ack_leader i = required_acks ack_leader ∷ disable_idempotent_write ∷ []
acks_opts ack_none i = required_acks ack_none ∷ disable_idempotent_write ∷ []

unfoldable pub transaction_opts : String → List ClientOpt
transaction_opts txn_id = if txn_id == "" then [] else transactional_id txn_id ∷ []

unfoldable pub group_opts : String → String → List ClientOpt
group_opts group topic =
    if group == "" then [] else consumer_group group ∷ consume_topics topic ∷ []

-- `clientOpts`
unfoldable pub client_opts : ResolvedConfig → List ClientOpt
unfolding transaction_opts group_opts
client_opts rc =
    seed_brokers rc.brokers
    ∷ (acks_opts rc.acks rc.idempotent
        ++ (transaction_opts rc.txn_id ++ group_opts rc.group rc.topic.name))

-- `kafkaConn`, as `Connect` makes it
pub record Connection : Type 0 where
  pub opts : List ClientOpt
  pub topic : String
  pub transactional : Bool
  pub grouped : Bool
  pub batch_size : ℤ

-- `Connect`, where the client can be made; `none` is an error.
pub connect : (makes_client : Bool) → DriverConfig → Option Connection
unfolding resolve client_opts
connect makes_client cfg = resolve cfg >>= λ rc.
    if makes_client
    then some (record {
      opts = client_opts rc;
      topic = rc.topic.name;
      transactional = not (rc.txn_id == "");
      grouped = not (rc.group == "");
      batch_size = rc.batch_size;
    })
    else none

-- The error codes of the topics in a reply, if there is one of the right kind. The code of a topic that
-- exists already is an argument.
pub ensure_topic : (exists : ℤ) → Option (List ℤ) → Bool
ensure_topic exists none = false
ensure_topic exists (some []) = true
ensure_topic exists (some (code ∷ errors)) =
    if eqb_ℤ code (pos 0) || eqb_ℤ code exists then ensure_topic exists (some errors) else false

-- `Schema`: whether it succeeds, from whether the client is made and what the broker replies.
pub ensure_schema : (makes_client : Bool) → (exists : ℤ) → Option (List ℤ) → DriverConfig → Bool
unfolding resolve ensure_topic
ensure_schema makes_client exists reply cfg = elim (resolve cfg) [
  | none ↦ false
  | some rc ↦ makes_client && ensure_topic exists reply
]
