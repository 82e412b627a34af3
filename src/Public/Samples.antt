-- ===== src/Public/Samples.antt =====
-- Runs of the public packages' configurations.
use reactive_commons_go.Base.{◌≡◌, ◌≢◌, ◌⊎◌, String, true, false, arith}
use text.Mathlib.TextEquality.{eq_iff}
use reactive_commons_go.Base.Int.{pos, negsuc}
use reactive_commons_go.Rabbit.Config.Samples as RabbitSamples
use reactive_commons_go.Kafka.Config.Samples as KafkaSamples
use reactive_commons_go.Kafka.Config.{Config}
use reactive_commons_go.Public.Rabbit as PublicRabbit
use reactive_commons_go.Public.Kafka as PublicKafka
use reactive_commons_go.Public.Rabbit.Settled.{IsAllowed, IsSettled, new_application-IsSettled}
use reactive_commons_go.Public.Kafka.Settled.{is_usable, KeepsNames, new_application-KeepsNames}

new_application-IsSettled_example :
    ((RabbitSamples.shop.app_name ≢ "")
      × IsAllowed RabbitSamples.shop.queue_type
      × (PublicRabbit.new_application RabbitSamples.shop
          ≡ PublicRabbit.made (PublicRabbit.with_defaults RabbitSamples.shop))
      × IsSettled RabbitSamples.shop (PublicRabbit.with_defaults RabbitSamples.shop))
    ⊎ ((RabbitSamples.shop.app_name ≡ "")
        × (PublicRabbit.new_application RabbitSamples.shop
            ≡ PublicRabbit.refused PublicRabbit.app_name_required))
    ⊎ ((RabbitSamples.shop.app_name ≢ "")
        × ¬ IsAllowed RabbitSamples.shop.queue_type
        × (PublicRabbit.new_application RabbitSamples.shop
            ≡ PublicRabbit.refused (PublicRabbit.queue_type_refused RabbitSamples.shop.queue_type)))
new_application-IsSettled_example = new_application-IsSettled RabbitSamples.shop

abbrev defaults : Config → Config
defaults = PublicKafka.with_defaults (negsuc 0) (pos 2) "f-1"

abbrev outcome : PublicKafka.Made
outcome = PublicKafka.new_application (negsuc 0) (pos 2) "f-1" KafkaSamples.shop

new_application-KeepsNames_example :
    ((is_usable KafkaSamples.shop ≡ true)
      × (outcome ≡ PublicKafka.made (defaults KafkaSamples.shop))
      × ((other : String)
          → PublicKafka.with_defaults (negsuc 0) (pos 2) other (defaults KafkaSamples.shop)
            ≡ defaults KafkaSamples.shop)
      × KeepsNames KafkaSamples.shop (defaults KafkaSamples.shop))
    ⊎ ((is_usable KafkaSamples.shop ≡ false)
        × (e : PublicKafka.ConfigError) × (outcome ≡ PublicKafka.refused e))
new_application-KeepsNames_example =
    new_application-KeepsNames (negsuc 0) (pos 2) (λ e. ground (arith, e)) (λ e. ground (arith, e))
      "f-1" KafkaSamples.shop (λ e. ground (arith, eq_iff "f-1" "", e))
