-- ===== src/Amplifier/Polls.antt =====
-- The polls and votes of a block in amplifier-verifier/indexer/axelar.go, and SetFieldByTag of
-- internal/helper/reflect.go on a Poll. encoding/json and strings are a parameter.
use cvms.Base.{
  String, Option, none, some, List, [], ◌∷◌, ◌++◌, if◌then◌else◌, ◌==◌, string_eq, Result, ok, err,
  panic, bind,
}
use cvms.LightClient.Events.{Attribute, BlockEvent}

pub record PollVote : Type 0 where
  pub verifier_address : String
  pub contract_address : String
  pub voted_poll_id : String
  pub status_str : String

-- VerifierContractMsg, as far as it is read
pub record VerifierContractMsg : Type 0 where
  pub sender : String
  pub contract : String
  pub vote_poll_id : String
  pub votes : List String

pub record Poll : Type 0 where
  pub poll_contract_address : String
  pub confirmation_height : String
  pub expires_at : String
  pub poll_message : String
  pub participants : List String
  pub poll_id : String
  pub source_chain : String
  pub source_gateway_address : String

abbrev pub batch_request_type_url : String
batch_request_type_url = "/axelar.auxiliary.v1beta1.BatchRequest"

abbrev pub poll_start_type1 : String
poll_start_type1 = "wasm-verifier_set_poll_started"

abbrev pub poll_start_type2 : String
poll_start_type2 = "wasm-messages_poll_started"

pub record PollCodecs : Type 0 where
  -- json.Unmarshal of a message, and of its field "@type": `none` without that field
  pub raw_type : String → Result (Option String)
  -- json.Unmarshal into a MsgBatchRequest: its messages
  pub batch_messages : String → Result (List VerifierContractMsg)
  -- json.Unmarshal into a []string
  pub unmarshal_strings : String → Result (List String)
  -- strings.Split at commas
  pub split_commas : String → List String
  -- strings.ReplaceAll of quotation marks by nothing
  pub strip_quotes : String → String
  -- fmt.Sprintf("%s/%s", ..)
  pub with_slash : String → String → String

-- pollVotes: a message without votes is left out, and of several votes the first counts.
unfoldable pub votes_of_batch : List VerifierContractMsg → List PollVote
votes_of_batch [] = []
votes_of_batch (m ∷ messages) = elim m.votes [
  | [] ↦ votes_of_batch messages
  | vote ∷ _ ↦
      record {
        verifier_address = m.sender;
        contract_address = m.contract;
        voted_poll_id = m.vote_poll_id;
        status_str = vote;
      }
      ∷ votes_of_batch messages
]

abbrev pub no_poll : Poll
no_poll = record {
  poll_contract_address = "";
  confirmation_height = "";
  expires_at = "";
  poll_message = "";
  participants = [];
  poll_id = "";
  source_chain = "";
  source_gateway_address = "";
}

module _ (c : PollCodecs) where
  -- the Amplifier's name for this is ParseDynamicMessage, and a type it does not know has no votes
  unfoldable pub poll_votes_of_message : String → String → Result (List PollVote)
  unfolding votes_of_batch
  poll_votes_of_message raw type_url =
      if type_url == batch_request_type_url
      then bind (c.batch_messages raw) (λ messages. ok (votes_of_batch messages))
      else ok []

  abbrev pub votes_of_typed : String → Option String → Result (List PollVote)
  votes_of_typed raw none = ok []
  votes_of_typed raw (some type_value) = poll_votes_of_message raw type_value

  -- the loop over the messages of one transaction
  unfoldable pub extract_messages : List String → Result (List PollVote)
  unfolding poll_votes_of_message
  extract_messages [] = ok []
  extract_messages (raw ∷ messages) = bind (c.raw_type raw) λ type_value.
      bind (votes_of_typed raw type_value)
        λ votes. bind (extract_messages messages) λ rest. ok (votes ++ rest)

  unfoldable pub extract_poll : List (List String) → Result (List PollVote)
  unfolding extract_messages
  extract_poll [] = ok []
  extract_poll (messages ∷ txs) =
      bind (extract_messages messages) λ votes. bind (extract_poll txs) λ rest. ok (votes ++ rest)

  abbrev pub strings_of : String → List String
  strings_of value = elim (c.unmarshal_strings value) [
    | ok l ↦ l
    | err e ↦ c.split_commas value
    | panic ↦ c.split_commas value
  ]

  -- The field whose tag is the key; the tags are different.
  unfoldable pub set_field_by_tag : Attribute → Poll → Poll
  set_field_by_tag a p =
      if a.key == "_contract_address"
      then record p { poll_contract_address = a.value }
      else (if a.key == "confirmation_height"
          then record p { confirmation_height = a.value }
          else (if a.key == "expires_at"
              then record p { expires_at = a.value }
              else (if a.key == "message"
                  then record p { poll_message = a.value }
                  else (if a.key == "participants"
                      then record p { participants = strings_of a.value }
                      else (if a.key == "poll_id"
                          then record p { poll_id = a.value }
                          else (if a.key == "source_chain"
                              then record p { source_chain = a.value }
                              else (if a.key == "source_gateway_address"
                                  then record p { source_gateway_address = a.value }
                                  else p)))))))

  unfoldable pub set_fields : List Attribute → Poll → Poll
  unfolding set_field_by_tag
  set_fields [] p = p
  set_fields (a ∷ attributes) p = set_fields attributes (set_field_by_tag a p)

  -- AmplifierPollStartFillter; its two cases do the same
  unfoldable pub poll_start_filter : List BlockEvent → List Poll
  unfolding set_fields
  poll_start_filter [] = []
  poll_start_filter (e ∷ events) =
      let rest = poll_start_filter events in
      if e.type_name == poll_start_type1
      then set_fields e.attributes no_poll ∷ rest
      else (if e.type_name == poll_start_type2
          then set_fields e.attributes no_poll ∷ rest
          else rest)

  abbrev pub concat_chain_and_poll_id : String → String → String
  concat_chain_and_poll_id chain_name id = c.with_slash chain_name (c.strip_quotes id)
