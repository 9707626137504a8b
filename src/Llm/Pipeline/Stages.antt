-- ===== src/Llm/Pipeline/Stages.antt =====
-- What every source behind llm/pipeline.go is sent, and what every response converter is given.
use kkode.Llm.Pipeline.{Pipeline}
