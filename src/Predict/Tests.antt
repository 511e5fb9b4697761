-- ===== src/Predict/Tests.antt =====
-- Runs of the branch predictor, and its theorems at concrete states.
use openrisc_tools.Prelude.{◌+◌, ◌%◌, ◌≡◌, refl, true, if◌then◌else◌, arith, inl}
use openrisc_tools.Machine.{Machine}
use openrisc_tools.Sample.{sample, empty_predictor}
use openrisc_tools.Predict.Defs.{bpb_update, btic_update}
use openrisc_tools.Predict.Recent.{
  predicts, IsAged, recent, use_target, bpb_update_lem, btic_update_lem,
}

-- A branch that is taken twice is predicted the second time.
learnt : (bpb_update 0x2004 1 (bpb_update 0x2004 1 sample)).predictor.correct ≡ 1
unfolding bpb_update
learnt = refl

bpb_update_lem_example :
    ((bpb_update 0x2004 1 sample).predictor.correct
      ≡ (if predicts 0x2004 1 sample.predictor then 0 + 1 else 0))
    × (predicts 0x2004 1 (bpb_update 0x2004 1 sample).predictor ≡ true)
bpb_update_lem_example = bpb_update_lem 0x2004 1 sample refl (omega arith) (omega arith)

-- In every entry, way 1 was used last.
abbrev aged : Machine
aged = record sample {
  predictor = record empty_predictor { btic = λ e w. record { addr = w; taken = 0; lru = w } };
}

btic_update_lem_example :
    IsAged ((btic_update 0x2004 aged).predictor.btic (0x2004 % 128))
    × (recent ((btic_update 0x2004 aged).predictor.btic (0x2004 % 128))
        ≡ use_target 0x2004 (recent (aged.predictor.btic (0x2004 % 128))))
btic_update_lem_example = btic_update_lem 0x2004 aged refl (inl (refl, refl))
