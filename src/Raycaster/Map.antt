-- ===== src/Raycaster/Map.antt =====
-- games/raycaster.c: the table of sines and the map.
use dragoon_kernel.Prelude.{ℕ, List, [], ◌∷◌}
use dragoon_kernel.Prelude.Int.{ℤ, pos, negsuc}

-- Sines of the 256 angles, times 65536.
abbrev pub sin_table : List ℤ
sin_table =
    pos 0
    ∷ pos 1608
    ∷ pos 3216
    ∷ pos 4821
    ∷ pos 6424
    ∷ pos 8022
    ∷ pos 9616
    ∷ pos 11204
    ∷ pos 12785
    ∷ pos 14359
    ∷ pos 15924
    ∷ pos 17479
    ∷ pos 19024
    ∷ pos 20557
    ∷ pos 22078
    ∷ pos 23586
    ∷ pos 25080
    ∷ pos 26558
    ∷ pos 28020
    ∷ pos 29466
    ∷ pos 30893
    ∷ pos 32303
    ∷ pos 33692
    ∷ pos 35062
    ∷ pos 36410
    ∷ pos 37736
    ∷ pos 39040
    ∷ pos 40320
    ∷ pos 41576
    ∷ pos 42806
    ∷ pos 44011
    ∷ pos 45190
    ∷ pos 46341
    ∷ pos 47464
    ∷ pos 48559
    ∷ pos 49624
    ∷ pos 50660
    ∷ pos 51665
    ∷ pos 52639
    ∷ pos 53581
    ∷ pos 54491
    ∷ pos 55368
    ∷ pos 56212
    ∷ pos 57022
    ∷ pos 57798
    ∷ pos 58538
    ∷ pos 59244
    ∷ pos 59914
    ∷ pos 60547
    ∷ pos 61145
    ∷ pos 61705
    ∷ pos 62228
    ∷ pos 62714
    ∷ pos 63162
    ∷ pos 63572
    ∷ pos 63944
    ∷ pos 64277
    ∷ pos 64571
    ∷ pos 64827
    ∷ pos 65043
    ∷ pos 65220
    ∷ pos 65358
    ∷ pos 65457
    ∷ pos 65516
    ∷ pos 65536
    ∷ pos 65516
    ∷ pos 65457
    ∷ pos 65358
    ∷ pos 65220
    ∷ pos 65043
    ∷ pos 64827
    ∷ pos 64571
    ∷ pos 64277
    ∷ pos 63944
    ∷ pos 63572
    ∷ pos 63162
    ∷ pos 62714
    ∷ pos 62228
    ∷ pos 61705
    ∷ pos 61145
    ∷ pos 60547
    ∷ pos 59914
    ∷ pos 59244
    ∷ pos 58538
    ∷ pos 57798
    ∷ pos 57022
    ∷ pos 56212
    ∷ pos 55368
    ∷ pos 54491
    ∷ pos 53581
    ∷ pos 52639
    ∷ pos 51665
    ∷ pos 50660
    ∷ pos 49624
    ∷ pos 48559
    ∷ pos 47464
    ∷ pos 46341
    ∷ pos 45190
    ∷ pos 44011
    ∷ pos 42806
    ∷ pos 41576
    ∷ pos 40320
    ∷ pos 39040
    ∷ pos 37736
    ∷ pos 36410
    ∷ pos 35062
    ∷ pos 33692
    ∷ pos 32303
    ∷ pos 30893
    ∷ pos 29466
    ∷ pos 28020
    ∷ pos 26558
    ∷ pos 25080
    ∷ pos 23586
    ∷ pos 22078
    ∷ pos 20557
    ∷ pos 19024
    ∷ pos 17479
    ∷ pos 15924
    ∷ pos 14359
    ∷ pos 12785
    ∷ pos 11204
    ∷ pos 9616
    ∷ pos 8022
    ∷ pos 6424
    ∷ pos 4821
    ∷ pos 3216
    ∷ pos 1608
    ∷ pos 0
    ∷ negsuc 1607
    ∷ negsuc 3215
    ∷ negsuc 4820
    ∷ negsuc 6423
    ∷ negsuc 8021
    ∷ negsuc 9615
    ∷ negsuc 11203
    ∷ negsuc 12784
    ∷ negsuc 14358
    ∷ negsuc 15923
    ∷ negsuc 17478
    ∷ negsuc 19023
    ∷ negsuc 20556
    ∷ negsuc 22077
    ∷ negsuc 23585
    ∷ negsuc 25079
    ∷ negsuc 26557
    ∷ negsuc 28019
    ∷ negsuc 29465
    ∷ negsuc 30892
    ∷ negsuc 32302
    ∷ negsuc 33691
    ∷ negsuc 35061
    ∷ negsuc 36409
    ∷ negsuc 37735
    ∷ negsuc 39039
    ∷ negsuc 40319
    ∷ negsuc 41575
    ∷ negsuc 42805
    ∷ negsuc 44010
    ∷ negsuc 45189
    ∷ negsuc 46340
    ∷ negsuc 47463
    ∷ negsuc 48558
    ∷ negsuc 49623
    ∷ negsuc 50659
    ∷ negsuc 51664
    ∷ negsuc 52638
    ∷ negsuc 53580
    ∷ negsuc 54490
    ∷ negsuc 55367
    ∷ negsuc 56211
    ∷ negsuc 57021
    ∷ negsuc 57797
    ∷ negsuc 58537
    ∷ negsuc 59243
    ∷ negsuc 59913
    ∷ negsuc 60546
    ∷ negsuc 61144
    ∷ negsuc 61704
    ∷ negsuc 62227
    ∷ negsuc 62713
    ∷ negsuc 63161
    ∷ negsuc 63571
    ∷ negsuc 63943
    ∷ negsuc 64276
    ∷ negsuc 64570
    ∷ negsuc 64826
    ∷ negsuc 65042
    ∷ negsuc 65219
    ∷ negsuc 65357
    ∷ negsuc 65456
    ∷ negsuc 65515
    ∷ negsuc 65535
    ∷ negsuc 65515
    ∷ negsuc 65456
    ∷ negsuc 65357
    ∷ negsuc 65219
    ∷ negsuc 65042
    ∷ negsuc 64826
    ∷ negsuc 64570
    ∷ negsuc 64276
    ∷ negsuc 63943
    ∷ negsuc 63571
    ∷ negsuc 63161
    ∷ negsuc 62713
    ∷ negsuc 62227
    ∷ negsuc 61704
    ∷ negsuc 61144
    ∷ negsuc 60546
    ∷ negsuc 59913
    ∷ negsuc 59243
    ∷ negsuc 58537
    ∷ negsuc 57797
    ∷ negsuc 57021
    ∷ negsuc 56211
    ∷ negsuc 55367
    ∷ negsuc 54490
    ∷ negsuc 53580
    ∷ negsuc 52638
    ∷ negsuc 51664
    ∷ negsuc 50659
    ∷ negsuc 49623
    ∷ negsuc 48558
    ∷ negsuc 47463
    ∷ negsuc 46340
    ∷ negsuc 45189
    ∷ negsuc 44010
    ∷ negsuc 42805
    ∷ negsuc 41575
    ∷ negsuc 40319
    ∷ negsuc 39039
    ∷ negsuc 37735
    ∷ negsuc 36409
    ∷ negsuc 35061
    ∷ negsuc 33691
    ∷ negsuc 32302
    ∷ negsuc 30892
    ∷ negsuc 29465
    ∷ negsuc 28019
    ∷ negsuc 26557
    ∷ negsuc 25079
    ∷ negsuc 23585
    ∷ negsuc 22077
    ∷ negsuc 20556
    ∷ negsuc 19023
    ∷ negsuc 17478
    ∷ negsuc 15923
    ∷ negsuc 14358
    ∷ negsuc 12784
    ∷ negsuc 11203
    ∷ negsuc 9615
    ∷ negsuc 8021
    ∷ negsuc 6423
    ∷ negsuc 4820
    ∷ negsuc 3215
    ∷ negsuc 1607
    ∷ []

-- A cell that is not 0 is a wall.
abbrev pub world_map : List (List ℕ)
world_map =
    (1 ∷ 1 ∷ 1 ∷ 1 ∷ 1 ∷ 1 ∷ 1 ∷ 1 ∷ 1 ∷ 1 ∷ 1 ∷ 1 ∷ 1 ∷ 1 ∷ 1 ∷ 1 ∷ [])
    ∷ (1 ∷ 0 ∷ 0 ∷ 0 ∷ 0 ∷ 0 ∷ 0 ∷ 0 ∷ 0 ∷ 0 ∷ 0 ∷ 0 ∷ 0 ∷ 0 ∷ 0 ∷ 1 ∷ [])
    ∷ (1 ∷ 0 ∷ 0 ∷ 0 ∷ 0 ∷ 0 ∷ 0 ∷ 0 ∷ 0 ∷ 0 ∷ 0 ∷ 0 ∷ 0 ∷ 0 ∷ 0 ∷ 1 ∷ [])
    ∷ (1 ∷ 0 ∷ 0 ∷ 2 ∷ 2 ∷ 0 ∷ 0 ∷ 0 ∷ 0 ∷ 0 ∷ 3 ∷ 3 ∷ 3 ∷ 0 ∷ 0 ∷ 1 ∷ [])
    ∷ (1 ∷ 0 ∷ 0 ∷ 2 ∷ 0 ∷ 0 ∷ 0 ∷ 0 ∷ 0 ∷ 0 ∷ 0 ∷ 0 ∷ 3 ∷ 0 ∷ 0 ∷ 1 ∷ [])
    ∷ (1 ∷ 0 ∷ 0 ∷ 0 ∷ 0 ∷ 0 ∷ 0 ∷ 0 ∷ 0 ∷ 0 ∷ 0 ∷ 0 ∷ 0 ∷ 0 ∷ 0 ∷ 1 ∷ [])
    ∷ (1 ∷ 0 ∷ 0 ∷ 0 ∷ 0 ∷ 0 ∷ 4 ∷ 4 ∷ 4 ∷ 0 ∷ 0 ∷ 0 ∷ 0 ∷ 0 ∷ 0 ∷ 1 ∷ [])
    ∷ (1 ∷ 0 ∷ 0 ∷ 0 ∷ 0 ∷ 0 ∷ 4 ∷ 0 ∷ 4 ∷ 0 ∷ 0 ∷ 0 ∷ 0 ∷ 0 ∷ 0 ∷ 1 ∷ [])
    ∷ (1 ∷ 0 ∷ 0 ∷ 0 ∷ 0 ∷ 0 ∷ 4 ∷ 0 ∷ 4 ∷ 0 ∷ 0 ∷ 0 ∷ 0 ∷ 0 ∷ 0 ∷ 1 ∷ [])
    ∷ (1 ∷ 0 ∷ 0 ∷ 0 ∷ 0 ∷ 0 ∷ 4 ∷ 4 ∷ 4 ∷ 0 ∷ 0 ∷ 0 ∷ 0 ∷ 0 ∷ 0 ∷ 1 ∷ [])
    ∷ (1 ∷ 0 ∷ 0 ∷ 0 ∷ 0 ∷ 0 ∷ 0 ∷ 0 ∷ 0 ∷ 0 ∷ 0 ∷ 0 ∷ 0 ∷ 0 ∷ 0 ∷ 1 ∷ [])
    ∷ (1 ∷ 0 ∷ 0 ∷ 2 ∷ 0 ∷ 0 ∷ 0 ∷ 0 ∷ 0 ∷ 0 ∷ 0 ∷ 3 ∷ 0 ∷ 0 ∷ 0 ∷ 1 ∷ [])
    ∷ (1 ∷ 0 ∷ 0 ∷ 2 ∷ 2 ∷ 0 ∷ 0 ∷ 0 ∷ 0 ∷ 0 ∷ 3 ∷ 3 ∷ 0 ∷ 0 ∷ 0 ∷ 1 ∷ [])
    ∷ (1 ∷ 0 ∷ 0 ∷ 0 ∷ 0 ∷ 0 ∷ 0 ∷ 0 ∷ 0 ∷ 0 ∷ 0 ∷ 0 ∷ 0 ∷ 0 ∷ 0 ∷ 1 ∷ [])
    ∷ (1 ∷ 0 ∷ 0 ∷ 0 ∷ 0 ∷ 0 ∷ 0 ∷ 0 ∷ 0 ∷ 0 ∷ 0 ∷ 0 ∷ 0 ∷ 0 ∷ 0 ∷ 1 ∷ [])
    ∷ (1 ∷ 1 ∷ 1 ∷ 1 ∷ 1 ∷ 1 ∷ 1 ∷ 1 ∷ 1 ∷ 1 ∷ 1 ∷ 1 ∷ 1 ∷ 1 ∷ 1 ∷ 1 ∷ [])
    ∷ []
