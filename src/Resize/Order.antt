-- ===== src/Resize/Order.antt =====
-- Resize of internal/driver/resize.go, for qemu: the order of what it changes on the host, and what is
-- changed when it fails.
use virtualis_agent.Common.{
  List, [], ◌∷◌, ◌++◌, Option, Result, ok, err, is_ok, ◌≡◌, refl, inl, inr, Bool-cases, true, false,
}
use virtualis_agent.Common.Int.{ℤ, ltb_ℤ}
use virtualis_agent.Common.Text.{Text, text, itoa}
use virtualis_agent.Protocol.{Instance, InstanceSpec, NetworkConfig}
use virtualis_agent.Backend.{Attempt, succeed, Machine}
use virtualis_agent.Backend.Snapshots.{gb_bytes}
use virtualis_agent.Backend.Journal.{
  ran, Journal, journaled, quiet, Meets, Keeps, Outcome, Keeps-from_result, Keeps-unless,
  Keeps-quiet, Meets-bind, Meets-then, Meets-deferring, Meets-weaken,
}
use virtualis_agent.Backend.Retention.{
  Keeps-require_stopped, Keeps-qemu_status, Keeps-qcow_virtual_size,
}
use virtualis_agent.Backend.Outcomes.{Keeps-system_disk}
use virtualis_agent.Backend.Disks.{qcow_virtual_size}
use virtualis_agent.Resize.{normalized_resize}
use virtualis_agent.Resize.Domain.{XmlToken, grow_disk, define_resized, qemu_resize}

data Blank : Journal → Type 0 where
  blank : Blank []

-- What `qemu-img info` says of the disk's capacity, in some state of the host.
pub record Reading {W : Type 0} (m : Machine W) (disk : Text) (actual : ℤ) : Type 0 where
  pub world : W
  pub journal : Journal
  pub answered : (qcow_virtual_size (journaled m) disk (world, journal)).0 ≡ ok actual

-- The command by which a disk is grown to that many GiB.
abbrev growth : Text → ℤ → List Text
growth disk disk_gb = text "qemu-img" ∷ text "resize" ∷ disk ∷ (itoa disk_gb ++ text "G") ∷ []

-- The disk was smaller than asked for and was grown to that, or it was not smaller; and nothing else
-- was done.
pub data GrownOnly {W : Type 0} (m : Machine W) (disk_gb : ℤ) : Journal → Type 0 where
  enough :
      {disk : Text} {actual : ℤ}
      → Reading m disk actual
      → ltb_ℤ actual (gb_bytes disk_gb) ≡ false
      → GrownOnly m disk_gb []
  grown :
      {disk : Text} {actual : ℤ}
      → Reading m disk actual
      → ltb_ℤ actual (gb_bytes disk_gb) ≡ true
      → GrownOnly m disk_gb (ran (growth disk disk_gb) true ∷ [])

-- After a success.
pub data Redefined {W : Type 0} (m : Machine W) (disk_gb : ℤ) : Journal → Type 0 where
  redefined :
      {path : Text} {l : Journal}
      → GrownOnly m disk_gb l
      → Redefined m disk_gb (ran (text "virsh" ∷ text "define" ∷ path ∷ []) true ∷ l)

-- After a failure.
pub data ResizeFailed {W : Type 0} (m : Machine W) (disk_gb : ℤ) : Journal → Type 0 where
  untouched : ResizeFailed m disk_gb []
  growth_failed :
      {disk : Text} {actual : ℤ}
      → Reading m disk actual
      → ltb_ℤ actual (gb_bytes disk_gb) ≡ true
      → ResizeFailed m disk_gb (ran (growth disk disk_gb) false ∷ [])
  definition_failed :
      {path : Text} {l : Journal}
      → GrownOnly m disk_gb l
      → ResizeFailed m disk_gb (ran (text "virsh" ∷ text "define" ∷ path ∷ []) false ∷ l)

module _ {W : Type 0} (m : Machine W) (decode_xml : Text → Result (List XmlToken))
    (write : Text → Text → Attempt W (Unit {0})) where
  -- Nothing was done yet, and the capacity of the disk is known.
  abbrev Ready : Text → ℤ → Journal → Type 0
  Ready disk actual l = Blank l × Reading m disk actual

  untouched_yet : (disk_gb : ℤ) (l : Journal) → Blank l → ResizeFailed m disk_gb l
  untouched_yet disk_gb l blank = untouched

  -- A step before anything is changed.
  Meets-query :
      {A : Type 0} (disk_gb : ℤ) (q : Attempt (W × Journal) A)
      → Keeps Blank q
      → Meets Blank q (λ _. Blank) (ResizeFailed m disk_gb)
  Meets-query disk_gb q k = Meets-weaken q (untouched_yet disk_gb) k

  Meets-ready :
      {A : Type 0} (disk : Text) (actual disk_gb : ℤ) (q : Attempt (W × Journal) A)
      → Keeps (Ready disk actual) q
      → Meets (Ready disk actual) q (λ _. Ready disk actual) (ResizeFailed m disk_gb)
  Meets-ready disk actual disk_gb q k = Meets-weaken q (λ l h. untouched_yet disk_gb l h.0) k

  read :
      (disk : Text) (r : Result ℤ) (w v : W) (l k : Journal)
      → (qcow_virtual_size (journaled m) disk (w, k)).0 ≡ r
      → Outcome {W = W} (λ _. Blank) Blank (r, (v, l))
      → Outcome {W = W} (λ actual. Ready disk actual) Blank (r, (v, l))
  read disk (ok actual) w v l k e h = (h, record { world = w; journal = k; answered = e })
  read disk (err t) w v l k e h = h

  Meets-measure :
      (disk : Text) (disk_gb : ℤ)
      → Meets Blank
          (qcow_virtual_size (journaled m) disk)
          (λ actual. Ready disk actual)
          (ResizeFailed m disk_gb)
  Meets-measure disk disk_gb = Meets-weaken _ (untouched_yet disk_gb) (record {
    at = λ w l h.
        let (r, (v, k)) = qcow_virtual_size (journaled m) disk (w, l) in
        read disk r w v k l refl ((Keeps-qcow_virtual_size m Blank disk).at w l h);
  })

  grew :
      (disk : Text) (actual disk_gb : ℤ) (r : Result (Unit {0})) (w : W) (l : Journal)
      → ltb_ℤ actual (gb_bytes disk_gb) ≡ true
      → Blank l
      → Reading m disk actual
      → Outcome
          (λ _. GrownOnly m disk_gb)
          (ResizeFailed m disk_gb)
          (r, (w, ran (growth disk disk_gb) (is_ok r) ∷ l))
  grew disk actual disk_gb (ok u) w l less blank reading = grown reading less
  grew disk actual disk_gb (err e) w l less blank reading = growth_failed reading less

  large_enough :
      (disk : Text) (actual disk_gb : ℤ) (l : Journal)
      → ltb_ℤ actual (gb_bytes disk_gb) ≡ false
      → Blank l
      → Reading m disk actual
      → GrownOnly m disk_gb l
  large_enough disk actual disk_gb l not_less blank reading = enough reading not_less

  Meets-grow :
      (disk : Text) (actual disk_gb : ℤ)
      → Meets
          (Ready disk actual)
          (grow_disk (journaled m) disk actual disk_gb)
          (λ _. GrownOnly m disk_gb)
          (ResizeFailed m disk_gb)
  unfolding grow_disk journaled succeed
  Meets-grow disk actual disk_gb = elim (Bool-cases (ltb_ℤ actual (gb_bytes disk_gb))) [
    | inl less ↦ rw less (record {
      at = λ w l h.
          let (r, w') = m.run (growth disk disk_gb) w in
          grew disk actual disk_gb r w' l less h.0 h.1;
    })
    | inr not_less ↦
        rw not_less (record { at = λ w l h. large_enough disk actual disk_gb l not_less h.0 h.1 })
  ]

  defined :
      (disk_gb : ℤ) (path : Text) (r : Result (Unit {0})) (w : W) (l : Journal)
      → GrownOnly m disk_gb l
      → Outcome
          (λ _. Redefined m disk_gb)
          (ResizeFailed m disk_gb)
          (r, (w, ran (text "virsh" ∷ text "define" ∷ path ∷ []) (is_ok r) ∷ l))
  defined disk_gb path (ok u) w l g = redefined g
  defined disk_gb path (err e) w l g = definition_failed g

  Meets-define_resized :
      (disk : Text) (actual disk_gb : ℤ) (updated : Text)
      → Meets
          (Ready disk actual)
          (define_resized
            (journaled m)
            (λ path t. quiet (write path t))
            disk
            actual
            disk_gb
            updated)
          (λ _. Redefined m disk_gb)
          (ResizeFailed m disk_gb)
  unfolding define_resized journaled
  Meets-define_resized disk actual disk_gb updated =
      Meets-then _ _ (Meets-ready disk actual disk_gb _ (Keeps-quiet _)) (
        Meets-bind _ _ (Meets-ready disk actual disk_gb _ (Keeps-quiet _)) (λ temp.
          Meets-deferring (m.drop_temp temp) _ (
            Meets-then _ _ (Meets-ready disk actual disk_gb _ (Keeps-quiet _)) (
              Meets-then _ _ (Meets-grow disk actual disk_gb) (record {
                at = λ w l h.
                    let (r, w') = m.run (text "virsh" ∷ text "define" ∷ temp ∷ []) w in
                    defined disk_gb temp r w' l h;
              })))))

  Meets-qemu_resize :
      (i : Instance) (s : InstanceSpec) (n : Option NetworkConfig)
      → Meets Blank
          (qemu_resize (journaled m) decode_xml (λ path t. quiet (write path t)) i s n)
          (λ _. Redefined m s.disk_gb)
          (ResizeFailed m s.disk_gb)
  unfolding qemu_resize journaled succeed normalized_resize
  Meets-qemu_resize i s n = Meets-then _ _ (Meets-query s.disk_gb _ (Keeps-from_result _)) (
      Meets-then _ _
        (Meets-query s.disk_gb _ (Keeps-require_stopped m Blank _ _ (Keeps-qemu_status m Blank i)))
        (Meets-bind _ _ (Meets-query s.disk_gb _ (Keeps-quiet _)) (λ raw.
          Meets-bind _ _ (Meets-query s.disk_gb _ (Keeps-from_result _)) (λ tokens.
            Meets-bind _ _ (Meets-query s.disk_gb _ (Keeps-from_result _)) (λ spans.
              Meets-bind _ _ (Meets-query s.disk_gb _ (Keeps-system_disk m Blank i)) (λ disk.
                Meets-then _ _ (Meets-query s.disk_gb _ (Keeps-from_result _)) (
                  Meets-bind _ _ (Meets-measure disk s.disk_gb) (λ actual.
                    Meets-then _ _ (Meets-ready disk actual s.disk_gb _ (Keeps-unless _ _)) (
                      Meets-bind _ _ (Meets-ready disk actual s.disk_gb _ (Keeps-from_result _))
                        (λ updated.
                          Meets-then _ _ (Meets-define_resized disk actual s.disk_gb updated)
                            (record { at = λ w l h. h })))))))))))

  -- Resize of qemu runs at most two commands for their effect, whatever the host answers. A success:
  -- the disk was grown to the capacity asked for if what qemu-img reported of it was less, and not
  -- otherwise, and after that the domain was defined anew. A failure: nothing was run; or a growth
  -- that was needed was the only command, and failed; or the definition failed, after a growth that
  -- succeeded or was not needed.
  pub qemu_resize-Order :
      (i : Instance) (s : InstanceSpec) (n : Option NetworkConfig) (w : W)
      → Outcome
          (λ _. Redefined m s.disk_gb)
          (ResizeFailed m s.disk_gb)
          (qemu_resize (journaled m) decode_xml (λ path t. quiet (write path t)) i s n (w, []))
  qemu_resize-Order i s n w = (Meets-qemu_resize i s n).at w [] blank
