-- ===== src/Video/Modes/Listing.antt =====
-- The modes of vmware_video/accelerant/ProposeDisplayMode.c, with their timings: ACCELERANT_MODE_COUNT and
-- GET_MODE_LIST.
use vmware_addons.Base.{
  ℕ, ◌*◌, ◌≡◌, refl, Bool, true, ◌&&◌, ◌||◌, not, List, get_elem?, some, zero, suc, subst, ◌∙◌, [],
  ◌∷◌, ◌==◌, leb, ltb, length, arith,
}
use mathlib.Core.Option.{some-injective}
use vmware_addons.Machine.{is_ok}
use vmware_addons.Video.Driver.{Shared}
use vmware_addons.Video.Driver.Control.{Space, bpp_for_space, cmap8, rgb32}
use vmware_addons.Video.Modes.{Mode, propose_display_mode}
use vmware_addons.Video.Modes.Setting.{is_fitting, propose_display_mode-fits}

-- The fields of display_timing, but for its flags, which are 0; the clock is in kHz.
pub record Timing : Type 0 where
  pub pixel_clock : ℕ
  pub h_display : ℕ
  pub h_sync_start : ℕ
  pub h_sync_end : ℕ
  pub h_total : ℕ
  pub v_display : ℕ
  pub v_sync_start : ℕ
  pub v_sync_end : ℕ
  pub v_total : ℕ

-- A mode of the list; its flags are MODE_FLAGS, and its start is 0, 0.
pub record Listed : Type 0 where
  pub timing : Timing
  pub mode : Mode

abbrev listed : ℕ → ℕ → ℕ → ℕ → ℕ → ℕ → ℕ → ℕ → ℕ → Space → ℕ → ℕ → Listed
listed clock h hs he ht v vs ve vt space width height = record {
  timing = record {
    pixel_clock = clock;
    h_display = h;
    h_sync_start = hs;
    h_sync_end = he;
    h_total = ht;
    v_display = v;
    v_sync_start = vs;
    v_sync_end = ve;
    v_total = vt;
  };
  mode = record { virtual_width = width; virtual_height = height; space = space };
}

-- kModeList, which GET_MODE_LIST copies
unfoldable pub mode_list : List Listed
mode_list =
    listed 19660 640 672 744 776 480 490 494 505 rgb32 640 480
    ∷ listed 19660 640 672 744 776 480 490 494 505 cmap8 640 480
    ∷ listed 25250 800 832 920 952 500 511 515 526 rgb32 800 500
    ∷ listed 30970 800 832 944 976 600 613 618 631 rgb32 800 600
    ∷ listed 41980 1024 1056 1208 1240 640 653 659 673 rgb32 1024 640
    ∷ listed 51850 1024 1056 1248 1280 768 784 791 807 rgb32 1024 768
    ∷ listed 59420 1280 1312 1536 1568 720 735 741 757 rgb32 1280 720
    ∷ listed 64050 1280 1312 1552 1584 768 784 791 807 rgb32 1280 768
    ∷ listed 65740 1152 1184 1432 1464 854 872 879 897 rgb32 1152 854
    ∷ listed 67260 1280 1312 1560 1592 800 817 824 841 rgb32 1280 800
    ∷ listed 85500 1360 1424 1536 1792 768 771 778 795 rgb32 1360 768
    ∷ listed 85765 1366 1494 1624 1798 768 770 776 795 rgb32 1366 768
    ∷ listed 86730 1440 1472 1800 1832 900 919 927 946 rgb32 1440 900
    ∷ listed 90890 1280 1312 1656 1688 1024 1045 1054 1076 rgb32 1280 1024
    ∷ listed 102150 1400 1432 1816 1848 1050 1072 1081 1103 rgb32 1400 1050
    ∷ listed 108000 1600 1700 1800 1900 900 1000 1100 1200 rgb32 1600 900
    ∷ listed 121680 1680 1712 2168 2200 1050 1072 1081 1103 rgb32 1680 1050
    ∷ listed 137970 1600 1632 2152 2184 1200 1225 1235 1261 rgb32 1600 1200
    ∷ listed 164500 1920 1952 2576 2608 1200 1225 1235 1261 rgb32 1920 1200
    ∷ listed 172000 1920 2040 2248 2576 1080 1081 1084 1118 rgb32 1920 1080
    ∷ listed 179080 1792 1824 2504 2536 1344 1372 1383 1412 rgb32 1792 1344
    ∷ listed 194330 1856 1888 2624 2656 1392 1421 1432 1462 rgb32 1856 1392
    ∷ listed 210640 1920 1952 2752 2784 1440 1470 1482 1513 rgb32 1920 1440
    ∷ listed 245600 2048 2080 3008 3040 1536 1568 1581 1613 rgb32 2048 1536
    ∷ listed 319750 3440 3488 3520 3600 1440 1443 1453 1481 rgb32 3440 1440
    ∷ listed 505490 3072 3320 3656 4240 1920 1921 1924 1987 rgb32 3072 1920
    ∷ []

-- ACCELERANT_MODE_COUNT
unfoldable pub mode_count : ℕ
unfolding mode_list
mode_count = length mode_list

-- The parts of a line, or of a frame, follow one another.
abbrev pub in_order : ℕ → ℕ → ℕ → ℕ → Bool
in_order display start end total = ltb display start && ltb start end && leb end total

-- The timing is that of the size, its parts are in order, and the colour space is one that the driver knows.
abbrev pub is_timed : Listed → Bool
is_timed m =
    in_order m.timing.h_display m.timing.h_sync_start m.timing.h_sync_end m.timing.h_total
    && in_order m.timing.v_display m.timing.v_sync_start m.timing.v_sync_end m.timing.v_total
    && (m.mode.virtual_width == m.timing.h_display)
    && (m.mode.virtual_height == m.timing.v_display)
    && not (bpp_for_space m.mode.space == 0)

abbrev pub is_large : Listed → Bool
is_large m = leb 320 m.mode.virtual_width && leb 240 m.mode.virtual_height

abbrev pub is_sound : Listed → Bool
is_sound m = is_timed m && is_large m

-- The frames in a second are at least 50 and fewer than 61.
abbrev pub is_steady : Listed → Bool
is_steady m =
    leb (50 * (m.timing.h_total * m.timing.v_total)) (1000 * m.timing.pixel_clock)
    && ltb (1000 * m.timing.pixel_clock) (61 * (m.timing.h_total * m.timing.v_total))

-- 1600 x 900
abbrev pub is_wide : Listed → Bool
is_wide m = (m.mode.virtual_width == 1600) && (m.mode.virtual_height == 900)

all_sound : List Listed → Bool
all_sound [] = true
all_sound (m ∷ ms) = (is_sound m && (is_steady m || is_wide m)) && all_sound ms

mode_list_sound : all_sound mode_list ≡ true
unfolding all_sound mode_list
mode_list_sound = refl

all_sound-elem :
    (ms : List Listed) (i : ℕ) (m : Listed)
    → all_sound ms ≡ true
    → get_elem? ms i ≡ some m
    → (is_sound m ≡ true) × ((is_steady m || is_wide m) ≡ true)
unfolding all_sound
all_sound-elem [] i m h e = cc
all_sound-elem (x ∷ xs) zero m h e =
    let same_ : x ≡ m = some-injective _ _ e in
    subst (λ z. (is_sound z ≡ true) × ((is_steady z || is_wide z) ≡ true)) same_
      (both _ _ (both _ _ h).0)
  where
    both : (a b : Bool) → (a && b) ≡ true → (a ≡ true) × (b ≡ true)
    both a b h = ground arith
all_sound-elem (x ∷ xs) (suc i) m h e = all_sound-elem xs i m (rest _ _ h) e
  where
    rest : (a b : Bool) → (a && b) ≡ true → b ≡ true
    rest a b h = ground arith

-- Every mode that GET_MODE_LIST gives has a sound timing, and 50 to 61 frames in a second unless it is 1600 x 900;
-- PROPOSE_DISPLAY_MODE accepts it just where the device is as large.
mode_list-Proposed :
    (s : Shared) (i : ℕ) (m : Listed)
    → get_elem? mode_list i ≡ some m
    → (is_sound m ≡ true)
      × ((is_steady m || is_wide m) ≡ true)
      × (is_ok (propose_display_mode s m.mode)
          ≡ (leb m.mode.virtual_width s.max_width && leb m.mode.virtual_height s.max_height))
mode_list-Proposed s i m e =
    let (sound, steady) = all_sound-elem mode_list i m mode_list_sound e in
    (
      sound,
      steady,
      propose_display_mode-fits s m.mode
          ∙ large (
              sides (is_timed m) (leb 320 m.mode.virtual_width) (leb 240 m.mode.virtual_height)
                sound),
    )
  where
    sides : (a b c : Bool) → (a && (b && c)) ≡ true → (b ≡ true) × (c ≡ true)
    sides a b c h = ground arith

    large :
        (leb 320 m.mode.virtual_width ≡ true) × (leb 240 m.mode.virtual_height ≡ true)
        → is_fitting s m.mode
          ≡ (leb m.mode.virtual_width s.max_width && leb m.mode.virtual_height s.max_height)
    large (wide, high) = rw (wide, high) refl
