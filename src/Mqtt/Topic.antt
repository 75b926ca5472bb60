-- ===== src/Mqtt/Topic.antt =====
-- The topics of qml/utilities/mqtt_client.py.
pub mod Laws
use harbour_find_my_device.Prelude.{
  Bool, Option, none, some, List, [], ◌∷◌, ◌++◌, ◌=?◌, if◌then◌else◌,
}
use harbour_find_my_device.Text.{Text, codes, split_on}

unfoldable pub topic_location : Text → Text
topic_location device_id = codes "fmd/" ++ device_id

unfoldable pub topic_cmd : Text → Text
topic_cmd device_id = codes "fmd/" ++ (device_id ++ codes "/cmd")

unfoldable pub topic_ack : Text → Text
topic_ack device_id = codes "fmd/" ++ (device_id ++ codes "/cmd/ack")

unfoldable pub topic_health : Text → Text
topic_health device_id = codes "fmd/" ++ (device_id ++ codes "/hc")

second_part : List Text → Option Text
second_part (first ∷ second ∷ rest) = if first =? codes "fmd" then some second else none
second_part _ = none

-- `_device_from_topic`
unfoldable pub device_from_topic : Text → Option Text
unfolding second_part
device_from_topic topic = second_part (split_on b'/' topic)
