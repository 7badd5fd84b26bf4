-- ===== src/Programs/Viewer/Serving.antt =====
-- The server program between its start and the signal: when it throws.
use Prim.Native.String.{◌++◌ as ◌<>◌}
use dora_foxglove.Prelude.{
  true, ◌<◌, ◌%◌, ◌^◌, length, ltb, arith, ℕ, ◌≡◌, refl, List, [], ◌∷◌, none, some, String, ok, err,
}
use dora_foxglove.Server.Types.{Env, Exn, std_error, ChannelWithoutId}
use dora_foxglove.Server.Effects.{lift}
use dora_foxglove.Server.Payload.{JsonLib}
use dora_foxglove.Server.Session.{Action}
use dora_foxglove.Server.Yields.{
  Yields, Throws, Throws->>=, Yields-Throws, Yields->>=, Yields-return, Yields-for_each,
  Yields-add_channels, Yields-broadcast_message,
}
use dora_foxglove.Programs.Viewer.{Data, broadcast_round}
use dora_foxglove.Programs.Viewer.Main.{
  take, World, Round, Schedule, file_contents, others, add_one, play, serve_data,
}

-- A file that can be opened, of a size that an int holds.
abbrev pub Readable : World → String → List ℕ → Type 0
Readable W name bytes = (W.files name ≡ some bytes) × (length bytes < 2 ^ 31)

-- The file that is read first of those that cannot be opened.
pub data IsUnread (W : World) (laser cloud path : String) : String → Type 0 where
  laser_unread : W.files laser ≡ none → IsUnread W laser cloud path laser
  cloud_unread :
      (f1 : List ℕ) → Readable W laser f1 → W.files cloud ≡ none → IsUnread W laser cloud path cloud
  path_unread :
      (f1 f2 : List ℕ)
      → Readable W laser f1
      → Readable W cloud f2
      → W.files path ≡ none
      → IsUnread W laser cloud path path

abbrev pub unopened : String → Exn
unopened name = std_error ("Could not open file " <> name)

module _ (J : JsonLib) (W : World) where
  contents :
      (name : String) (bytes : List ℕ)
      → Readable W name bytes
      → Yields (lift (file_contents J W name))
  unfolding lift file_contents
  contents name bytes (e, fits) =
      let small : ltb (length bytes % 2 ^ 32) (2 ^ 31) ≡ true = ground arith in
      let read : file_contents J W name ≡ ok (take (length bytes % 2 ^ 32) bytes) =
        rw (e, file_contents, small) refl in
      record { yields = λ s. (_, read) }

  unread :
      (name : String) → W.files name ≡ none → Throws (unopened name) (lift (file_contents J W name))
  unfolding lift file_contents
  unread name e =
      let none_read : file_contents J W name ≡ err (unopened name) = rw (e, file_contents) refl in
      record { throws = λ s. none_read }

  module _ (env : Env) where
    Yields-others : (actions : List Action) → Yields (others J W env actions)
    Yields-others actions = record { yields = λ s. (tt, refl) }

    Yields-add_one : (c : ChannelWithoutId) → Yields (add_one J W env c)
    unfolding add_one
    Yields-add_one c = Yields->>= (Yields-add_channels env (c ∷ [])) λ ids. Yields-return _

    Yields-play :
        (d : Data) (channels : ℕ × ℕ × ℕ) (rounds : List Round)
        → Yields (play J W env d channels rounds)
    unfolding play broadcast_round
    Yields-play d channels rounds = Yields-for_each rounds λ r.
        Yields->>=
          (Yields->>= (Yields-broadcast_message env _ _ _ _) λ _.
            Yields->>= (Yields-broadcast_message env _ _ _ _)
              λ _. Yields-broadcast_message env _ _ _ _)
          λ _. Yields-others r.meanwhile

    pub Yields-serve_data :
        (laser cloud path : String) (f1 f2 f3 : List ℕ) (d : Data) (schedule : Schedule)
        → Readable W laser f1
        → Readable W cloud f2
        → Readable W path f3
        → Yields (serve_data J W env laser cloud path d schedule)
    unfolding serve_data
    Yields-serve_data laser cloud path f1 f2 f3 d schedule e1 e2 e3 =
        Yields->>= (Yields-others schedule.started) λ _.
          Yields->>= (contents laser f1 e1) λ first_schema. Yields->>= (Yields-add_one _) λ first.
            Yields->>= (Yields-others schedule.first_added) λ _.
              Yields->>= (contents cloud f2 e2) λ second_schema.
                Yields->>= (Yields-add_one _) λ second.
                  Yields->>= (Yields-others schedule.second_added) λ _.
                    Yields->>= (contents path f3 e3) λ third_schema.
                      Yields->>= (Yields-add_one _) λ third.
                        Yields->>= (Yields-others schedule.third_added)
                          λ _. Yields-play d (first, second, third) schedule.rounds

    pub Throws-serve_data :
        (laser cloud path name : String) (d : Data) (schedule : Schedule)
        → IsUnread W laser cloud path name
        → Throws (unopened name) (serve_data J W env laser cloud path d schedule)
    unfolding serve_data
    Throws-serve_data laser cloud path name d schedule (laser_unread e) =
        Yields-Throws (Yields-others schedule.started) λ _. Throws->>= _ (unread laser e)
    Throws-serve_data laser cloud path name d schedule (cloud_unread f1 e1 e) =
        Yields-Throws (Yields-others schedule.started) λ _.
          Yields-Throws (contents laser f1 e1) λ first_schema.
            Yields-Throws (Yields-add_one _) λ first.
              Yields-Throws (Yields-others schedule.first_added) λ _. Throws->>= _ (unread cloud e)
    Throws-serve_data laser cloud path name d schedule (path_unread f1 f2 e1 e2 e) =
        Yields-Throws (Yields-others schedule.started) λ _.
          Yields-Throws (contents laser f1 e1) λ first_schema.
            Yields-Throws (Yields-add_one _) λ first.
              Yields-Throws (Yields-others schedule.first_added) λ _.
                Yields-Throws (contents cloud f2 e2) λ second_schema.
                  Yields-Throws (Yields-add_one _) λ second.
                    Yields-Throws (Yields-others schedule.second_added)
                      λ _. Throws->>= _ (unread path e)
