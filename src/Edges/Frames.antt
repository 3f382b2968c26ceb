-- ===== src/Edges/Frames.antt =====
-- The frames of the edge probe, as they are written, and what they mean together.
use sc_adat_appliance.Base.{
  ℕ, ◌+◌, ◌/◌, ◌%◌, ◌^◌, ◌<◌, ◌≡◌, refl, sym, ◌∙◌, true, List, [], ◌∷◌, ◌++◌, append_assoc,
  append-nil, Bool,
}
use sc_adat_appliance.Edges.{Reader}

-- What the probe reports: the time and level of a start, the ticks since the last edge and the new
-- level, the lost edges and the time of an overflow, and the time and the lost edges of a stop.
pub data Frame : Type 0 where
  start_at edge_after overflow_of stop_at : ℕ → ℕ → Frame

-- Four bytes, the lowest first.
abbrev pub little : ℕ → List ℕ
little n = n % 256 ∷ n / 256 % 256 ∷ n / 65536 % 256 ∷ n / 16777216 % 256 ∷ []

abbrev pub printed : Frame → List ℕ
printed (start_at time level) = 0xA1 ∷ little time ++ level ∷ []
printed (edge_after delta level) = 0xA2 ∷ little delta ++ level ∷ []
printed (overflow_of lost time) = 0xA3 ∷ little lost ++ little time
printed (stop_at time lost) = 0xA4 ∷ little time ++ little lost

abbrev pub stream : List Frame → List ℕ
stream [] = []
stream (f ∷ fs) = printed f ++ stream fs

-- The numbers of a frame fit, and the level of an edge is a bit.
abbrev pub Fits : Frame → Type 0
Fits (start_at time level) = time < 2 ^ 32
Fits (edge_after delta level) = (delta < 2 ^ 32) × (level < 2)
Fits (overflow_of lost time) = (lost < 2 ^ 32) × (time < 2 ^ 32)
Fits (stop_at time lost) = (time < 2 ^ 32) × (lost < 2 ^ 32)

-- What a frame means.
abbrev pub taken : Frame → Reader → Reader
taken (start_at time level) r = record r { initial = level }
taken (edge_after delta level) r = record r {
  edges = r.edges ++ (r.tick + delta, level) ∷ [];
  tick = r.tick + delta;
}
taken (overflow_of lost time) r = record r { overflow = lost }
taken (stop_at time lost) r = record r { overflow = lost; stopped = true }

abbrev pub all_taken : List Frame → Reader → Reader
all_taken [] r = r
all_taken (f ∷ fs) r = all_taken fs (taken f r)

-- The edges that the frames mean, with their times from the start on.
abbrev pub edges_of : ℕ → List Frame → List (ℕ × ℕ)
edges_of tick [] = []
edges_of tick (start_at time level ∷ fs) = edges_of tick fs
edges_of tick (edge_after delta level ∷ fs) = (tick + delta, level) ∷ edges_of (tick + delta) fs
edges_of tick (overflow_of lost time ∷ fs) = edges_of tick fs
edges_of tick (stop_at time lost ∷ fs) = edges_of tick fs

pub edges-all_taken :
    (fs : List Frame) (r : Reader) → (all_taken fs r).edges ≡ r.edges ++ edges_of r.tick fs
edges-all_taken [] r = sym (append-nil r.edges)
edges-all_taken (start_at time level ∷ fs) r = edges-all_taken fs (taken (start_at time level) r)
edges-all_taken (edge_after delta level ∷ fs) r =
    edges-all_taken fs (taken (edge_after delta level) r)
    ∙ append_assoc r.edges ((r.tick + delta, level) ∷ []) (edges_of (r.tick + delta) fs)
edges-all_taken (overflow_of lost time ∷ fs) r =
    edges-all_taken fs (taken (overflow_of lost time) r)
edges-all_taken (stop_at time lost ∷ fs) r = edges-all_taken fs (taken (stop_at time lost) r)

-- The level of the last start.
abbrev pub level_of : ℕ → List Frame → ℕ
level_of level [] = level
level_of level (start_at time new_level ∷ fs) = level_of new_level fs
level_of level (other ∷ fs) = level_of level fs

-- The lost edges that were told last.
abbrev pub lost_of : ℕ → List Frame → ℕ
lost_of lost [] = lost
lost_of lost (overflow_of new_lost time ∷ fs) = lost_of new_lost fs
lost_of lost (stop_at time new_lost ∷ fs) = lost_of new_lost fs
lost_of lost (other ∷ fs) = lost_of lost fs

-- Whether a stop is among the frames.
abbrev pub has_stop : Bool → List Frame → Bool
has_stop stopped [] = stopped
has_stop stopped (stop_at time lost ∷ fs) = has_stop true fs
has_stop stopped (other ∷ fs) = has_stop stopped fs

pub initial-all_taken :
    (fs : List Frame) (r : Reader) → (all_taken fs r).initial ≡ level_of r.initial fs
initial-all_taken [] r = refl
initial-all_taken (start_at a b ∷ fs) r = initial-all_taken fs (taken (start_at a b) r)
initial-all_taken (edge_after a b ∷ fs) r = initial-all_taken fs (taken (edge_after a b) r)
initial-all_taken (overflow_of a b ∷ fs) r = initial-all_taken fs (taken (overflow_of a b) r)
initial-all_taken (stop_at a b ∷ fs) r = initial-all_taken fs (taken (stop_at a b) r)

pub overflow-all_taken :
    (fs : List Frame) (r : Reader) → (all_taken fs r).overflow ≡ lost_of r.overflow fs
overflow-all_taken [] r = refl
overflow-all_taken (start_at a b ∷ fs) r = overflow-all_taken fs (taken (start_at a b) r)
overflow-all_taken (edge_after a b ∷ fs) r = overflow-all_taken fs (taken (edge_after a b) r)
overflow-all_taken (overflow_of a b ∷ fs) r = overflow-all_taken fs (taken (overflow_of a b) r)
overflow-all_taken (stop_at a b ∷ fs) r = overflow-all_taken fs (taken (stop_at a b) r)

pub stopped-all_taken :
    (fs : List Frame) (r : Reader) → (all_taken fs r).stopped ≡ has_stop r.stopped fs
stopped-all_taken [] r = refl
stopped-all_taken (start_at a b ∷ fs) r = stopped-all_taken fs (taken (start_at a b) r)
stopped-all_taken (edge_after a b ∷ fs) r = stopped-all_taken fs (taken (edge_after a b) r)
stopped-all_taken (overflow_of a b ∷ fs) r = stopped-all_taken fs (taken (overflow_of a b) r)
stopped-all_taken (stop_at a b ∷ fs) r = stopped-all_taken fs (taken (stop_at a b) r)
