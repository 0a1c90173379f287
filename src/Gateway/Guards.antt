-- ===== src/Gateway/Guards.antt =====
-- What `chat_completions` sends to the upstream, and for whom.
use privy_gate.Common.{
  ◌≡◌, sym, ap, ◌∙◌, true, false, inl, inr, arith, List, none, some, Option-cases, Bool-cases,
}
use privy_gate.Mask.{Masker, new_masker}
use privy_gate.Policy.{ConsumerPolicy, PolicyRegistry, maybe_reload, resolve, is_allowed}
use privy_gate.Policy.Allowed.{IsAllowed, is_allowed_iff, is_allowed-maybe_reload}
use privy_gate.Models.{ModelConfig, ModelRegistry, resolve_model}
use privy_gate.Gateway.{
  Headers, ChatMessage, ChatRequest, extract_api_key, mask_messages, Gateway, masker_for,
  ChatReadings, forbidden, unknown_model, ready, exceeds, masked_chat, resolved_chat, allowed_chat,
  chat_completions,
}

module _ (g : Gateway) (r : ChatReadings) (h : Headers) (body : ChatRequest) where
  -- What a request passed before it is sent on.
  pub record IsReady (p : ConsumerPolicy) (config : ModelConfig) (out : List ChatMessage × Masker)
      : Type 0 where
    pub allowing : PolicyRegistry
    pub reloaded : maybe_reload r.at_allowed g.policies ≡ some allowing
    pub is_let_in : IsAllowed allowing h.x_consumer_id (extract_api_key g.chars h)
    pub resolving : PolicyRegistry
    pub resolved : resolve r.at_resolve allowing h.x_consumer_id ≡ some (resolving, p)
    pub models : ModelRegistry
    pub is_model : resolve_model r.at_model g.models body.model ≡ some (models, some config)
    pub within_quota : exceeds p body ≡ false
    pub masked : mask_messages (masker_for g p) body.messages new_masker ≡ some out

  masked_chat-ready :
      (q p : ConsumerPolicy) (c config : ModelConfig) (messages : List ChatMessage)
      (masker : Masker)
      → masked_chat g r h body q c ≡ ready p config messages masker
      → (q ≡ p)
        × (c ≡ config)
        × (exceeds p body ≡ false)
        × (mask_messages (masker_for g p) body.messages new_masker ≡ some (messages, masker))
  unfolding masked_chat
  masked_chat-ready q p c config messages masker e = elim (Bool-cases (exceeds q body)) [
    | inl over ↦ absurd (ground arith)
    | inr within ↦ elim (Option-cases (mask_messages (masker_for g q) body.messages new_masker)) [
      | inl raised ↦ absurd (ground arith)
      | inr ((ms, s), found) ↦
          let same : ready q c ms s ≡ ready p config messages masker =
            rw (masked_chat, within, found) at e in
          let same_policy : q ≡ p = cc in
          let same_out : some (ms, s) ≡ some (messages, masker) = cc in
          (
            same_policy,
            cc,
            ap (λ x. exceeds x body) (sym same_policy) ∙ within,
            ap (λ x. mask_messages (masker_for g x) body.messages new_masker) (sym same_policy)
                ∙ found
                ∙ same_out,
          )
    ]
  ]

  resolved_chat-ready :
      (s : PolicyRegistry) (p : ConsumerPolicy) (config : ModelConfig) (messages : List ChatMessage)
      (masker : Masker)
      → (resolved_chat g r h body s).1 ≡ ready p config messages masker
      → (s' : PolicyRegistry) × (models : ModelRegistry) × (resolve r.at_resolve s h.x_consumer_id
          ≡ some (s', p))
        × (resolve_model r.at_model g.models body.model ≡ some (models, some config))
        × (exceeds p body ≡ false)
        × (mask_messages (masker_for g p) body.messages new_masker ≡ some (messages, masker))
  unfolding resolved_chat
  resolved_chat-ready s p config messages masker e =
      elim (Option-cases (resolve r.at_resolve s h.x_consumer_id)) [
        | inl raised ↦ absurd (ground arith)
        | inr ((s', q), found) ↦
            elim (Option-cases (resolve_model r.at_model g.models body.model)) [
              | inl broken ↦ absurd (ground arith)
              | inr ((t, none), known) ↦
                  let refused : unknown_model ≡ ready p config messages masker =
                    rw (resolved_chat, found, known) at e in
                  absurd (ground arith)
              | inr ((t, some c), known) ↦
                  let (same_policy, same_config, within, masked) =
                    masked_chat-ready q p c config messages masker
                      (rw (resolved_chat, found, known) at e) in
                  (
                    s',
                    t,
                    found ∙ ap (λ x. some (s', x)) same_policy,
                    known ∙ ap (λ x. some (t, some x)) same_config,
                    within,
                    masked,
                  )
            ]
      ]

  -- What is sent to the upstream passed every guard: the registry that is in force lets the identity
  -- in with its key, the model is known, the tokens are within the quota of the policy, and the
  -- content of each message is what a masker with that policy, new at the first message, makes of
  -- it.
  pub chat_completions-IsReady :
      (p : ConsumerPolicy) (config : ModelConfig) (messages : List ChatMessage) (masker : Masker)
      → (chat_completions g r h body).1 ≡ ready p config messages masker
      → IsReady p config (messages, masker)
  unfolding chat_completions allowed_chat
  chat_completions-IsReady p config messages masker e =
      let key = extract_api_key g.chars h in
      elim (Option-cases (is_allowed r.at_allowed g.policies h.x_consumer_id key)) [
        | inl raised ↦ absurd (ground arith)
        | inr ((s, true), found) ↦
            let reloaded =
              is_allowed-maybe_reload r.at_allowed g.policies s h.x_consumer_id key true found in
            let (s', models, resolved, known, within, masked) =
              resolved_chat-ready s p config messages masker (rw (chat_completions, found) at e) in
            record {
              allowing = s;
              reloaded = reloaded;
              is_let_in =
                  (is_allowed_iff r.at_allowed g.policies s h.x_consumer_id key reloaded).0 found;
              resolving = s';
              resolved = resolved;
              models = models;
              is_model = known;
              within_quota = within;
              masked = masked;
            }
        | inr ((s, false), found) ↦
            let refused : forbidden ≡ ready p config messages masker =
              rw (chat_completions, found) at e in
            absurd (ground arith)
      ]
