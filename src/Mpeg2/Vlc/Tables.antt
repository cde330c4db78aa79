-- ===== src/Mpeg2/Vlc/Tables.antt =====
-- Which entries of the code tables of mpeg2_parser.cpp can be reached, by evaluation of the tables.
use haiku_vaio_vpceb3k1e.Prelude.{
  ℕ, ◌<◌, ◌≡◌, ◌≢◌, refl, true, ◌||◌, arith, ◌==◌, all_below, all_below_sound,
}
use haiku_vaio_vpceb3k1e.Mpeg2.Vlc.Prefix.{is_clear}
use haiku_vaio_vpceb3k1e.Mpeg2.Vlc.AcB14.{ac_table_b14}
use haiku_vaio_vpceb3k1e.Mpeg2.Vlc.AcB15.{ac_table_b15}
use haiku_vaio_vpceb3k1e.Mpeg2.Vlc.Cbp.{cbp_table}

b14_clear : all_below 113 (is_clear 17 ac_table_b14) ≡ true
unfolding all_below is_clear
b14_clear = refl

-- Entries 13 and 14 of table B-15 begin with the code of entry 4.
b15_clear : all_below 110 (λ i. is_clear 17 ac_table_b15 i || (i == 13 || i == 14)) ≡ true
unfolding all_below is_clear
b15_clear = refl

cbp_clear : all_below 64 (is_clear 9 cbp_table) ≡ true
unfolding all_below is_clear
cbp_clear = refl

pub is_clear-b14 : (i : ℕ) → i < 113 → is_clear 17 ac_table_b14 i ≡ true
is_clear-b14 i h = all_below_sound 113 _ i b14_clear h

pub is_clear-cbp : (i : ℕ) → i < 64 → is_clear 9 cbp_table i ≡ true
is_clear-cbp i h = all_below_sound 64 _ i cbp_clear h

pub is_clear-b15 : (i : ℕ) → i < 110 → i ≢ 13 → i ≢ 14 → is_clear 17 ac_table_b15 i ≡ true
is_clear-b15 i h a b = ground (arith, all_below_sound 110 _ i b15_clear h)
