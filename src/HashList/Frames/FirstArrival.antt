-- ===== src/HashList/Frames/FirstArrival.antt =====
-- The dictionary that `_add_hash_data` fills, seen as a table of frames by hash ID and number.
use py_mammotion.Base.{
  maybe, ℕ, ◌≡◌, refl, ◌∙◌, ap, true, ◌&&◌, Option, none, some, List, [], ◌∷◌, ◌++◌, if◌then◌else◌,
  arith, nat_keys, ◌==◌, eqb_iff, any, Bool-cases, inl, inr,
}
use py_mammotion.Base.Dict.{Dict, lookup}
use py_mammotion.HashList.Frames.{FrameList, NavGetCommData, has_number, add_hash_data, comm_frame}
use py_mammotion.HashList.Frames.Adding.{with_frame, lookup-add_hash_data}

unfoldable pub find_number : ℕ → List NavGetCommData → Option NavGetCommData
find_number k [] = none
find_number k (x ∷ xs) = if x.current_frame == k then some x else find_number k xs

-- The frame that is held under a hash ID and a number.
unfoldable pub frame_at : ℕ → ℕ → Dict ℕ FrameList → Option NavGetCommData
unfolding find_number maybe
frame_at h k m = maybe (lookup h m) none (λ fl. find_number k fl.data')

unfoldable pub or_else : Option NavGetCommData → Option NavGetCommData → Option NavGetCommData
or_else none b = b
or_else (some a) b = some a

unfoldable pub only : ℕ → ℕ → NavGetCommData → Option NavGetCommData
only h k d = if d.hash == h && d.current_frame == k then some d else none

-- The specification: the first frame with that hash ID and number among those that come.
unfoldable pub first_arrival : ℕ → ℕ → List NavGetCommData → Option NavGetCommData
unfolding or_else only
first_arrival h k [] = none
first_arrival h k (d ∷ ds) = or_else (only h k d) (first_arrival h k ds)

unfoldable pub receive_all : Dict ℕ FrameList → List NavGetCommData → Dict ℕ FrameList
receive_all m [] = m
receive_all m (d ∷ ds) = receive_all (add_hash_data m d).0 ds

find_number-append_one :
    (k : ℕ) (xs : List NavGetCommData) (d : NavGetCommData)
    → find_number k (xs ++ d ∷ [])
      ≡ or_else (find_number k xs) (if d.current_frame == k then some d else none)
unfolding find_number or_else
find_number-append_one k [] d = refl
find_number-append_one k (x ∷ xs) d = ground (arith, find_number-append_one k xs d)

find_number-held :
    (k : ℕ) (xs : List NavGetCommData) (o : Option NavGetCommData)
    → has_number k xs ≡ true
    → or_else (find_number k xs) o ≡ find_number k xs
unfolding find_number has_number any or_else
find_number-held k [] o h = absurd (cc h)
find_number-held k (x ∷ xs) o h = ground (arith, find_number-held k xs o, h)

-- The frame list after a frame: what was held, or the frame itself.
find_number-with_frame :
    (k : ℕ) (d : NavGetCommData) (o : Option FrameList)
    → find_number k (with_frame d o d.total_frame).data'
      ≡ or_else
          (maybe o none (λ fl. find_number k fl.data'))
          (if d.current_frame == k then some d else none)
unfolding find_number or_else maybe
find_number-with_frame k d none = ground arith
find_number-with_frame k d (some fl) = elim (Bool-cases (has_number d.current_frame fl.data')) [
  | inl e ↦
      rw e (ground (arith, e, eqb_iff d.current_frame k, find_number-held k fl.data' (some d)))
  | inr e ↦ rw e (find_number-append_one k fl.data' d)
]

or_else-none : (o : Option NavGetCommData) → o ≡ or_else o none
unfolding or_else
or_else-none none = refl
or_else-none (some d) = refl

frame_at-add_hash_data :
    (h k : ℕ) (m : Dict ℕ FrameList) (d : NavGetCommData)
    → frame_at h k (add_hash_data m d).0 ≡ or_else (frame_at h k m) (only h k d)
unfolding frame_at only maybe
frame_at-add_hash_data h k m d = elim (Bool-cases (d.hash == h)) [
  | inl e ↦ rw (lookup-add_hash_data m d h) (
      rw e (
        find_number-with_frame k d (lookup d.hash m)
        ∙ ap
            (λ x.
              or_else (maybe (lookup x m) none (λ fl. find_number k fl.data'))
                (if d.current_frame == k then some d else none))
            ((eqb_iff d.hash h).0 e)))
  | inr e ↦ rw (lookup-add_hash_data m d h) (rw e (or_else-none (frame_at h k m)))
]

or_else_assoc : (a b c : Option NavGetCommData) → or_else (or_else a b) c ≡ or_else a (or_else b c)
unfolding or_else
or_else_assoc none b c = refl
or_else_assoc (some d) b c = refl

frame_at-receive_all :
    (h k : ℕ) (m : Dict ℕ FrameList) (ds : List NavGetCommData)
    → frame_at h k (receive_all m ds) ≡ or_else (frame_at h k m) (first_arrival h k ds)
unfolding receive_all first_arrival
frame_at-receive_all h k m [] = or_else-none (frame_at h k m)
frame_at-receive_all h k m (d ∷ ds) =
    frame_at-receive_all h k (add_hash_data m d).0 ds
    ∙ ap (λ o. or_else o (first_arrival h k ds)) (frame_at-add_hash_data h k m d)
    ∙ or_else_assoc (frame_at h k m) (only h k d) (first_arrival h k ds)

-- The dictionary that add_hash_data fills from any sequence of frames, seen as a table by hash ID
-- and frame number, implements the specification of a table that keeps the first arrival: under
-- each hash ID and number it holds the first frame of the sequence with them, or none.
pub receive_all-first_arrival :
    (h k : ℕ) (ds : List NavGetCommData) → frame_at h k (receive_all [] ds) ≡ first_arrival h k ds
unfolding frame_at lookup maybe or_else
receive_all-first_arrival h k ds = frame_at-receive_all h k [] ds
