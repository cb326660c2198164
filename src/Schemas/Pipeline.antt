-- ===== src/Schemas/Pipeline.antt =====
-- packages/platform-core/src/platform_core/schemas/enums.py: the stages of the sales pipeline and
-- the transitions between them.
use soomsuite_agent.Prelude.{ℕ, ◌≡◌, refl, some, List, [], ◌∷◌, Enum, get_elem?}

pub data PipelineStage : Type 0 where
  new_lead qualified appointment_booked security_review proposal negotiation won lost :
      PipelineStage

abbrev stage_index : PipelineStage → ℕ
stage_index new_lead = 0
stage_index qualified = 1
stage_index appointment_booked = 2
stage_index security_review = 3
stage_index proposal = 4
stage_index negotiation = 5
stage_index won = 6
stage_index lost = 7

abbrev pub all_stages : List PipelineStage
all_stages =
    new_lead ∷ qualified ∷ appointment_booked ∷ security_review ∷ proposal ∷ negotiation ∷ won
    ∷ lost ∷ []

pub stage_index_member : (a : PipelineStage) → get_elem? all_stages (stage_index a) ≡ some a
stage_index_member new_lead = refl
stage_index_member _ = refl

instance abbrev pub stage_enum : Enum PipelineStage
stage_enum = record { values = all_stages; index = stage_index; index_values = stage_index_member }

unfoldable pub pipeline_transitions : PipelineStage → List PipelineStage
pipeline_transitions new_lead = qualified ∷ appointment_booked ∷ lost ∷ []
pipeline_transitions qualified = appointment_booked ∷ security_review ∷ proposal ∷ lost ∷ []
pipeline_transitions appointment_booked = qualified ∷ security_review ∷ proposal ∷ lost ∷ []
pipeline_transitions security_review = proposal ∷ appointment_booked ∷ lost ∷ []
pipeline_transitions proposal = negotiation ∷ won ∷ lost ∷ []
pipeline_transitions negotiation = proposal ∷ won ∷ lost ∷ []
pipeline_transitions won = []
pipeline_transitions lost = new_lead ∷ []
