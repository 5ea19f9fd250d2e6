-- ===== src/Mm/Sample.antt =====
-- A small heap for the tests: two blocks in use with a free one between them.
use cs0330_fall2022_7_malloc.Base.{ℕ, ◌+◌, ◌-◌, refl, [], ◌∷◌, true, false, arith}
use cs0330_fall2022_7_malloc.Machine.{Mem, State, write_long, read, write}
use cs0330_fall2022_7_malloc.Layout.{Blocks, done, block}
use cs0330_fall2022_7_malloc.Layout.Shape.{next, walk}
use cs0330_fall2022_7_malloc.Mm.Inv.{Inv}

-- Both tags of a block.
abbrev tagged : Mem → (p n w : ℕ) → Mem
tagged m p n w = write_long (write_long m p w) (p + n - 8) w

abbrev sample_mem : Mem
sample_mem =
    write_long
      (write_long
        (tagged
          (tagged (tagged (tagged (tagged (λ a. 205) 1000 16 17) 1016 40 41) 1056 72 72) 1128 48 49)
          1176 16 17)
        1064 1056)
      1072 1056

abbrev pub sample : State
sample = record {
  mem = sample_mem;
  mem_start_brk = 1000;
  mem_brk = 1192;
  mem_max_addr = 3000;
  flist_first = 1056;
  prologue = 1000;
  epilogue = 1176;
}

abbrev pub sample_blocks : Blocks
sample_blocks = (16, true) ∷ ((40, true) ∷ ((72, false) ∷ ((48, true) ∷ ((16, true) ∷ []))))

pub sample-Inv : Inv sample sample_blocks
unfolding read write walk next
sample-Inv = record {
  sound = record {
    heap =
        block (record { header = refl; footer = refl; aligned = refl; tags = omega arith })
          (omega arith)
          (block (record { header = refl; footer = refl; aligned = refl; tags = omega arith })
            (omega arith)
            (block (record { header = refl; footer = refl; aligned = refl; tags = omega arith })
              (omega arith)
              (block (record { header = refl; footer = refl; aligned = refl; tags = omega arith })
                (omega arith)
                (block (record { header = refl; footer = refl; aligned = refl; tags = omega arith })
                  (omega arith) (done refl)))));
    low = omega arith;
    top = omega arith;
  };
  free = record { ring = 1056 ∷ []; is_ring = (refl, (refl, refl)); same = λ x. refl };
  shaped = refl;
  aligned = refl;
  epilogue = refl;
  limit = omega arith;
  top = omega arith;
}
