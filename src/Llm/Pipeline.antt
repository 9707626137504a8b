-- ===== src/Llm/Pipeline.antt =====
-- llm/pipeline.go, with the types of llm/conversion.go: one call of a provider in three stages. The
-- converters and the caller are what the pipeline is given, each of which may be missing.
pub mod Stages
use kkode.Prelude.{
  ℕ, Bool, true, false, List, [], if◌then◌else◌, Option, none, some, Result, ok, err,
}
use kkode.Strings.{Text, codes, is_empty}
use kkode.Llm.Loop.{Request, Response}

-- `ConvertOptions`
pub record ConvertOptions : Type 0 where
  pub operation : Text
  pub stream : Bool

-- `ProviderRequest`, with the body, the headers, the metadata and the raw value as one part that
-- nothing here looks at.
pub record ProviderRequest (Body : Type 0) : Type 0 where
  pub operation : Text
  pub model : Text
  pub body : Body
  pub stream : Bool

-- `ProviderResult`
pub record ProviderResult (Body : Type 0) : Type 0 where
  pub provider : Text
  pub model : Text
  pub body : Body

-- The errors of the stages: a missing part, or what a part says.
pub data PipelineError : Type 0 where
  no_request_converter no_caller no_response_converter no_streamer : PipelineError
  conversion_failed call_failed decoding_failed stream_failed : Text → PipelineError

-- `ProviderPipeline`. `W` is the world of the sources that it calls, and `Stream` what a streaming
-- source gives.
pub record Pipeline (Rest Sent Got Stream W : Type 0) : Type 0 where
  pub provider_name : Text
  pub request_converter :
      Option (Request Rest → ConvertOptions → Result Text (ProviderRequest Sent))
  pub response_converter : Option (ProviderResult Got → Result Text Response)
  pub caller : Option (ProviderRequest Sent → W → Result Text (ProviderResult Got) × W)
  pub streamer : Option (ProviderRequest Sent → W → Result Text Stream × W)
  pub options : ConvertOptions
  pub stream_options : ConvertOptions

-- The last lines of `prepare`.
abbrev pub completed :
    {Rest Sent : Type 0}
    → Request Rest
    → ConvertOptions
    → ProviderRequest Sent
    → ProviderRequest Sent
completed req opts r = record r {
  model = if is_empty r.model then req.model else r.model;
  stream = if opts.stream then true else r.stream;
}

module _ {Rest Sent Got Stream W : Type 0} where
  -- `providerName`
  unfoldable pub name_of : Pipeline Rest Sent Got Stream W → Text
  unfolding is_empty
  name_of p = if is_empty p.provider_name then codes "adapted-provider" else p.provider_name

  -- `prepare`
  unfoldable pub prepare_with :
      Pipeline Rest Sent Got Stream W
      → Request Rest
      → ConvertOptions
      → Result PipelineError (ProviderRequest Sent)
  unfolding is_empty
  prepare_with p req opts = elim p.request_converter [
    | none ↦ err no_request_converter
    | some convert ↦ elim (convert req opts) [
      | err e ↦ err (conversion_failed e)
      | ok r ↦ ok (completed req opts r)
    ]
  ]

  -- `Prepare`
  unfoldable pub prepare :
      Pipeline Rest Sent Got Stream W → Request Rest → Result PipelineError (ProviderRequest Sent)
  unfolding prepare_with
  prepare p req = prepare_with p req p.options

  -- The options of `PrepareStream`.
  unfoldable pub streaming_options : Pipeline Rest Sent Got Stream W → ConvertOptions
  unfolding is_empty
  streaming_options p = record {
    operation =
        if is_empty p.stream_options.operation
        then p.options.operation
        else p.stream_options.operation;
    stream = true;
  }

  -- `PrepareStream`
  unfoldable pub prepare_stream :
      Pipeline Rest Sent Got Stream W → Request Rest → Result PipelineError (ProviderRequest Sent)
  unfolding prepare_with streaming_options
  prepare_stream p req = elim (prepare_with p req (streaming_options p)) [
    | err e ↦ err e
    | ok r ↦ ok (record r { stream = true })
  ]

  -- `normalizeResult`
  unfoldable pub normalize_result :
      Pipeline Rest Sent Got Stream W
      → ProviderRequest Sent
      → ProviderResult Got
      → ProviderResult Got
  unfolding is_empty name_of
  normalize_result p sent r = record r {
    provider = if is_empty r.provider then name_of p else r.provider;
    model = if is_empty r.model then sent.model else r.model;
  }

  -- `Call`
  unfoldable pub call :
      Pipeline Rest Sent Got Stream W
      → ProviderRequest Sent
      → W
      → Result PipelineError (ProviderResult Got) × W
  unfolding normalize_result
  call p sent w = elim p.caller [
    | none ↦ (err no_caller, w)
    | some send ↦
        let (answer, w') = send sent w in
        elim answer [
          | err e ↦ (err (call_failed e), w')
          | ok r ↦ (ok (normalize_result p sent r), w')
        ]
  ]

  -- `Decode`
  unfoldable pub decode :
      Pipeline Rest Sent Got Stream W → ProviderResult Got → Result PipelineError Response
  decode p r = elim p.response_converter [
    | none ↦ err no_response_converter
    | some convert ↦ elim (convert r) [ err e ↦ err (decoding_failed e) | ok answer ↦ ok answer ]
  ]

  -- `Generate`
  unfoldable pub generate :
      Pipeline Rest Sent Got Stream W → Request Rest → W → Result PipelineError Response × W
  unfolding prepare call decode
  generate p req w = elim (prepare p req) [
    | err e ↦ (err e, w)
    | ok sent ↦
        let (answer, w') = call p sent w in
        elim answer [ err e ↦ (err e, w') | ok r ↦ (decode p r, w') ]
  ]

  -- `Stream`
  unfoldable pub open_stream :
      Pipeline Rest Sent Got Stream W → Request Rest → W → Result PipelineError Stream × W
  unfolding prepare_stream
  open_stream p req w = elim p.streamer [
    | none ↦ (err no_streamer, w)
    | some start ↦ elim (prepare_stream p req) [
      | err e ↦ (err e, w)
      | ok sent ↦
          let (answer, w') = start sent w in
          elim answer [ err e ↦ (err (stream_failed e), w') | ok s ↦ (ok s, w') ]
    ]
  ]
